-- ===== src/Keys/Tests.antt =====
-- Keys at concrete events.
use tiny_ssh.Base.{◌≡◌, true, false, some, arith}
use tiny_ssh.Keys.{
  KeyCode, f, KeyModifiers, KeyEvent, press, TermMode, MouseEvent, MouseEventKind, MouseButton,
  encode,
}
use tiny_ssh.Keys.Decode.{decode_key, decode_key-encode}
use tiny_ssh.Keys.Gesture.{Seen, pressed, gesture}

abbrev none_held : KeyModifiers
none_held = record { shift = false; control = false; alt = false; extra = false }

abbrev ctrl_alt : KeyModifiers
ctrl_alt = record { shift = false; control = true; alt = true; extra = false }

abbrev app_mode : TermMode
app_mode = record {
  app_cursor = true;
  sgr_mouse = true;
  alt_screen = false;
  bracketed_paste = false;
}

abbrev key : KeyCode → KeyEvent
key c = record { code = c; modifiers = none_held; kind = press }

decode_key-encode_example : decode_key (encode (key (f 11)) app_mode) ≡ some (f 11)
decode_key-encode_example = decode_key-encode (key (f 11)) app_mode (omega arith)

abbrev click : MouseEvent
click = record {
  kind = MouseEventKind.down MouseButton.right;
  column = 10;
  row = 5;
  modifiers = record { shift = true; control = false; alt = false; extra = false };
}

abbrev click_seen : Seen
click_seen = record {
  gesture = pressed MouseButton.right;
  shift = true;
  alt = false;
  control = false;
  x = 11;
  y = 6;
}
