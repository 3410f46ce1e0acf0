-- ===== src/Ui/Ghost.antt =====
-- Where the ghost text of crates/tiny-ssh-cli/src/ui.rs is drawn.
use Prim.Native.Nat.{min}
use tiny_ssh.Base.{
  ℕ, ◌+◌, ◌-◌, ◌%◌, ◌≤◌, ◌<◌, ◌≡◌, ◌↔◌, refl, sym, ap, ◌∙◌, Bool, true, false, ◌&&◌, some, List, [],
  ◌∷◌, In, inl, inr, arith, ltb, length, take, length-take, drop, take-append-drop, subst, ◌++◌,
  Bool-cases,
}
use tiny_ssh.Utf8.{Text}
use tiny_ssh.Terminal
use tiny_ssh.Terminal.{Vt}
use tiny_ssh.App.{App}
use tiny_ssh.App.Gate.{can_show_suggestion, Showable, can_show_suggestion_iff}
use tiny_ssh.Ui
use tiny_ssh.Ui.{
  Rect, Ratatui, Drawn, ghost, paragraph, saturating_add, ghost_at, overlay, render_grid,
}

-- A text cut at the right edge `r`, on one row.
pub record Clipped (r x y : ℕ) (s text : Text) (rect : Rect) : Type 0 where
  pub text_is : text ≡ take (r - x) s
  pub rect_is : rect ≡ record { x = x; y = y; width = length text; height = 1 }
  pub not_empty : 0 < length text

clip_width :
    (n : ℕ) (s : Text) → n ≤ 0xffff → min (length (take n s)) n % 0x10000 ≡ length (take n s)
clip_width n s h = omega (arith, length-take n s)

ghost_text : {t t' : Text} {r r' : Rect} → ghost t r ≡ ghost t' r' → t ≡ t'
ghost_text e = cc

ghost_rect : {t t' : Text} {r r' : Rect} → ghost t r ≡ ghost t' r' → r ≡ r'
ghost_rect e = cc

ghost_at_iff :
    (r x y : ℕ) (s text : Text) (rect : Rect)
    → r ≤ 0xffff
    → In (ghost text rect) (ghost_at r x y s) ↔ Clipped r x y s text rect
unfolding ghost_at
ghost_at_iff r x y s text rect h =
    rw (ghost_at, clip_width (r - x) s (omega arith))
      (elim (Bool-cases (ltb 0 (length (take (r - x) s)))) [
        | inl t ↦ rw t (
          λ m. elim m [
            | inl e ↦ record {
              text_is = ghost_text e;
              rect_is =
                  ghost_rect e
                  ∙ ap (λ t. record { x = x; y = y; width = length t; height = 1 })
                      (sym (ghost_text e));
              not_empty = ground (arith, ghost_text e);
            }
            | inr n ↦ elim n [ ]
          ],
          λ c. inl (cc (c.text_is, c.rect_is)),
        )
        | inr f ↦ rw f (λ m. elim m [ ], λ c. ground (arith, c.text_is, c.not_empty))
      ])

-- A u16 edge, as `Rect::right` and `Rect::bottom` return it.
pub record RatatuiLaws (ui : Ratatui) : Type 0 where
  pub right-le : (area : Rect) → ui.right area ≤ 0xffff

module _ (vt : Vt) (ui : Ratatui) where
  open ui use {right, bottom}

  -- The column and the row of the window at which the cursor of the grid stands.
  abbrev pub cursor_x : Rect → App vt → ℕ
  cursor_x area app = saturating_add area.x (Terminal.cursor vt app.terminal).0

  abbrev pub cursor_y : Rect → App vt → ℕ
  cursor_y area app = saturating_add area.y (Terminal.cursor vt app.terminal).1

  -- The ghost text as it is to be drawn: shown by the gate, at the cursor, inside the grid.
  pub record IsOverlay (area : Rect) (app : App vt) (text : Text) (rect : Rect) : Type 0 where
    pub shown : Showable vt app
    pub left_of_edge : cursor_x area app < right area
    pub above_edge : cursor_y area app < bottom area
    pub clipped : Clipped (right area) (cursor_x area app) (cursor_y area app) shown.ghost text rect

  abbrev inside : Rect → App vt → Bool
  inside area app = ltb (cursor_x area app) (right area) && ltb (cursor_y area app) (bottom area)

  overlay-inside :
      (area : Rect) (app : App vt) (g : Text)
      → inside area app ≡ true
      → overlay vt ui area app (some g)
        ≡ ghost_at (right area) (cursor_x area app) (cursor_y area app) g
  unfolding overlay
  overlay-inside area app g t = rw (overlay, t) refl

  overlay-outside :
      (area : Rect) (app : App vt) (g : Text)
      → inside area app ≡ false
      → overlay vt ui area app (some g) ≡ []
  unfolding overlay
  overlay-outside area app g f = rw (overlay, f) refl

  rest_of :
      (lines : List Text) (area : Rect) (ds : List Drawn) (text : Text) (rect : Rect)
      → In (ghost text rect) (paragraph lines area ∷ ds)
      → In (ghost text rect) ds
  rest_of lines area ds text rect (inl p) = cc
  rest_of lines area ds text rect (inr m) = m

  shown_lines :
      (area : Rect) (app : App vt) (s : Showable vt app)
      → render_grid vt ui area app
        ≡ paragraph (Ui.grid_lines vt ui app) area ∷ overlay vt ui area app (some s.ghost)
  unfolding render_grid
  shown_lines area app s = rw (render_grid, (can_show_suggestion_iff vt app).1 s, s.has_ghost) refl

  hidden_lines :
      (area : Rect) (app : App vt)
      → can_show_suggestion vt app ≡ false
      → render_grid vt ui area app ≡ paragraph (Ui.grid_lines vt ui app) area ∷ []
  unfolding render_grid
  hidden_lines area app f = rw (render_grid, f) refl

  module _ (laws : RatatuiLaws ui) where
    drawn_IsOverlay :
        (area : Rect) (app : App vt) (text : Text) (rect : Rect) (s : Showable vt app)
        → In (ghost text rect) (overlay vt ui area app (some s.ghost))
        → IsOverlay area app text rect
    drawn_IsOverlay area app text rect s m = elim (Bool-cases (inside area app)) [
      | inl t ↦ record {
        shown = s;
        left_of_edge = ground arith;
        above_edge = ground arith;
        clipped =
            (ghost_at_iff (right area) (cursor_x area app) (cursor_y area app) s.ghost text rect
                (laws.right-le area)).0
              (subst (In (ghost text rect)) (overlay-inside area app s.ghost t) m);
      }
      | inr f ↦ absurd (subst (In (ghost text rect)) (overlay-outside area app s.ghost f) m)
    ]

    -- A frame shows a ghost text exactly if the gate lets it, the cursor is inside the grid, and
    -- the text is the suggestion cut at the right edge, on one row at the cursor, and not empty.
    pub render_grid-ghost_iff :
        (area : Rect) (app : App vt) (text : Text) (rect : Rect)
        → In (ghost text rect) (render_grid vt ui area app) ↔ IsOverlay area app text rect
    render_grid-ghost_iff area app text rect = (to, from)
      where
        to : In (ghost text rect) (render_grid vt ui area app) → IsOverlay area app text rect
        to m = elim (Bool-cases (can_show_suggestion vt app)) [
          | inl t ↦
              let s = (can_show_suggestion_iff vt app).0 t in
              drawn_IsOverlay area app text rect s (
                rest_of _ area _ text rect
                  (subst (In (ghost text rect)) (shown_lines area app s) m))
          | inr f ↦ absurd (
              rest_of _ area [] text rect
                (subst (In (ghost text rect)) (hidden_lines area app f) m))
        ]

        from : IsOverlay area app text rect → In (ghost text rect) (render_grid vt ui area app)
        from o =
            let t : inside area app ≡ true = ground (arith, o.left_of_edge, o.above_edge) in
            subst (In (ghost text rect)) (sym (shown_lines area app o.shown)) (
              inr (
                subst (In (ghost text rect)) (sym (overlay-inside area app o.shown.ghost t)) (
                  (ghost_at_iff (right area) (cursor_x area app) (cursor_y area app) o.shown.ghost
                      text rect (laws.right-le area)).1
                    o.clipped)))

    -- What is drawn as ghost text stays on one row inside the grid, and is the beginning of the
    -- suggestion.
    pub render_grid-inside :
        (area : Rect) (app : App vt) (text : Text) (rect : Rect)
        → In (ghost text rect) (render_grid vt ui area app)
        → (rect.x + rect.width ≤ right area)
          × (rect.y < bottom area)
          × (rect.height ≡ 1)
          × (length text ≡ rect.width)
          × ((rest : Text) × (app.suggestion ≡ some (text ++ rest)))
    render_grid-inside area app text rect m =
        let o = (render_grid-ghost_iff area app text rect).0 m in
        let c = o.clipped in
        let n = right area - cursor_x area app in
        (
          rw (c.rect_is, c.text_is) (omega (arith, length-take n o.shown.ghost, o.left_of_edge)),
          rw c.rect_is o.above_edge,
          rw c.rect_is refl,
          rw c.rect_is refl,
          (
            drop n o.shown.ghost,
            o.shown.has_ghost ∙ ap some (sym (rw c.text_is (take-append-drop n o.shown.ghost))),
          ),
        )
