-- ===== src/Target/Tests.antt =====
-- Targets as they are typed.
use tiny_ssh.Base.{◌≡◌, refl, none, some, codes, arith, ok}
use tiny_ssh.Decimal.{parse_digits}
use tiny_ssh.Target.{
  parse_target, parse_rest, with_colon, with_port, behind_bracket, split_once, rsplit_once,
  parse_u16, small_digits,
}
use tiny_ssh.Target.Forms.{bracketed_port, render, meaning, parse_target-render}

parse_target-render_example :
    parse_target (render (bracketed_port (codes "root") (codes "::1") 2222))
    ≡ ok (meaning (bracketed_port (codes "root") (codes "::1") 2222))
parse_target-render_example =
    parse_target-render (bracketed_port (codes "root") (codes "::1") 2222)
      (((λ e. cc), omega arith), omega arith, omega arith)

-- The colon of an address without brackets is taken for the port's.
unbracketed_address : parse_target (codes "u@fe80::1") ≡ ok (codes "u", codes "fe80:", some 1)
unfolding parse_target parse_rest with_colon with_port split_once rsplit_once parse_u16 small_digits
    parse_digits
unbracketed_address = refl

-- The brackets of a host without a colon stay.
brackets_kept : parse_target (codes "u@[box]") ≡ ok (codes "u", codes "[box]", none)
unfolding unbracketed_address
brackets_kept = refl

-- What stands behind the bracket is dropped.
behind_dropped : parse_target (codes "u@[::1]22") ≡ ok (codes "u", codes "::1", none)
unfolding unbracketed_address behind_bracket
behind_dropped = refl
