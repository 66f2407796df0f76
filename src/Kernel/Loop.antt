-- ===== src/Kernel/Loop.antt =====
-- The main loop of src/kernel.c: it empties the keyboard's buffer onto the screen.
use god_os.Base.{
  ℕ, zero, suc, ◌%◌, ◌≡◌, ◌<◌, refl, ap, ◌∙◌, Option, none, some, List, [], ◌∷◌, length, arith,
}
use god_os.Io.{Bus}
use god_os.Keyboard.{Keyboard, kb_get}
use god_os.Keyboard.Queue.{pop}
use god_os.Keyboard.Ring.{IsValid, contents, kb_get-IsValid, contents-kb_get, contents_short}
use god_os.Keyboard.Refine.{mode, kb_get_fields}
use god_os.Vga.{vga_puts}
use god_os.Irq.{System}
use god_os.Kernel.{Kernel, show, poll, drain}

-- The characters as the `char`s that are printed.
unfoldable pub chars : List ℕ → List ℕ
chars [] = []
chars (c ∷ q) = c % 256 ∷ chars q

abbrev pub with_keyboard : {D : Type 0} → Keyboard → System D Kernel → System D Kernel
with_keyboard k s = record s { kernel = record (s.kernel) { keyboard = k } }

kb_get-pop :
    {k : Keyboard} {q : List ℕ}
    → IsValid k
    → contents k ≡ q
    → ((kb_get k).0 ≡ (pop q).0)
      × (contents (kb_get k).1 ≡ (pop q).1)
      × (mode (kb_get k).1 ≡ mode k)
kb_get-pop {k} {q} v is =
    let both = contents-kb_get v ∙ ap pop is in
    (ap (λ x. x.0) both, ap (λ x. x.1) both, kb_get_fields k)

module _ {D : Type 0} (bus : Bus D) where
  -- What the emptied kernel is, after the characters `q`.
  abbrev pub Drained : List ℕ → System D Kernel → Option (System D Kernel) → Type 0
  Drained q s r =
      (k : Keyboard) × (r
        ≡ some (record (with_keyboard k s) { screen = vga_puts bus (chars q) s.screen }))
      × IsValid k
      × (contents k ≡ [])
      × (mode k ≡ mode s.kernel.keyboard)

  pub poll_lem :
      (s : System D Kernel) {o : Option ℕ}
      → (kb_get s.kernel.keyboard).0 ≡ o
      → poll bus s ≡ (o, show bus o (with_keyboard (kb_get s.kernel.keyboard).1 s))
  unfolding poll
  poll_lem s e = ap (λ o. (o, show bus o (with_keyboard (kb_get s.kernel.keyboard).1 s))) e

  drain-empty :
      (fuel : ℕ) (s : System D Kernel)
      → (kb_get s.kernel.keyboard).0 ≡ none
      → drain bus (suc fuel) s ≡ some (with_keyboard (kb_get s.kernel.keyboard).1 s)
  unfolding drain show
  drain-empty fuel s e =
      ap
        (λ (x : Option ℕ × System D Kernel). elim x.0 [
          | none ↦ some x.1
          | some char ↦ drain bus fuel x.1
        ])
        (poll_lem s e)

  drain-char :
      (fuel c : ℕ) (s : System D Kernel)
      → (kb_get s.kernel.keyboard).0 ≡ some c
      → drain bus (suc fuel) s
        ≡ drain bus fuel (show bus (some c) (with_keyboard (kb_get s.kernel.keyboard).1 s))
  unfolding drain
  drain-char fuel c s e =
      ap
        (λ (x : Option ℕ × System D Kernel). elim x.0 [
          | none ↦ some x.1
          | some char ↦ drain bus fuel x.1
        ])
        (poll_lem s e)

  drain-Drained :
      (fuel : ℕ) (q : List ℕ) (s : System D Kernel)
      → IsValid s.kernel.keyboard
      → contents s.kernel.keyboard ≡ q
      → length q < fuel
      → Drained q s (drain bus fuel s)
  unfolding pop chars vga_puts show
  drain-Drained zero q s v is h = absurd (omega arith)
  drain-Drained (suc fuel) [] s v is h =
      let (answer, rest, keys) = kb_get-pop v is in
      let k = (kb_get s.kernel.keyboard).1 in
      (k, drain-empty fuel s answer, kb_get-IsValid v, rest, keys)
  drain-Drained (suc fuel) (c ∷ q) s v is h =
      let (answer, rest, keys) = kb_get-pop v is in
      let k = (kb_get s.kernel.keyboard).1 in
      let t = show bus (some c) (with_keyboard k s) in
      let (k', later, v', none_left, keys') =
        drain-Drained fuel q t (kb_get-IsValid v) rest (omega arith) in
      (k', drain-char fuel c s answer ∙ later, v', none_left, keys' ∙ keys)

  -- With a valid keyboard buffer, the inner loop of `kmain` ends, within 64 rounds if no interrupt comes:
  -- it prints exactly the characters that wait, in order, and leaves the buffer valid and empty and the
  -- modifiers as they were.
  pub drain_lem :
      (s : System D Kernel)
      → IsValid s.kernel.keyboard
      → Drained (contents s.kernel.keyboard) s (drain bus 64 s)
  drain_lem s v =
      drain-Drained 64 (contents s.kernel.keyboard) s v refl (contents_short s.kernel.keyboard)
