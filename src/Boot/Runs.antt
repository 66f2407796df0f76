-- ===== src/Boot/Runs.antt =====
-- `pmm_init` of src/pmm.c comes to its end, and what it has then set up.
use god_os.Base.{
  ℕ, ◌+◌, ◌*◌, ◌/◌, ◌%◌, ◌^◌, ◌≡◌, ◌<◌, ◌≤◌, refl, sym, ap, ◌∙◌, ltb, ◌==◌, Bool, true, false, not,
  ◌&&◌, ◌||◌, some, length, arith, Bool-cases, inl, inr, List, [], ◌∷◌,
}
use god_os.Io.{Bus}
use god_os.Pmm.{Range, bitmap_init}
use god_os.Pmm.Init.{Words, bitmap_init-free, bitmap_init-IsValid}
use god_os.Mb2.{load, mb2_init}
use god_os.Mb2.Entries.{Mapped, load-Mapped}
use god_os.Mb2.Safe.{mb2_init-Safe}
use god_os.Mb2.Words.{mb2_init-Words}
use god_os.Vga.{Screen}
use god_os.Vga.Format.{Arg}
use god_os.Identity.{translate, pmm_extend_identity}
use god_os.Identity.Keeps.{Keeps, translate-low}
use god_os.Identity.Ensure.{ensure_2mb_mapped-Outcome}
use god_os.Identity.Extend.{pmm_extend_identity-Extended}
use god_os.Boot.{
  Machine, memory, Init, failed, with_words, with_pmm, max_ranges, range_end, max_of, say, fail,
  set_up, list_ranges, with_info, parse_info, ensure_then, read_info, pmm_init,
}
use god_os.Boot.Checks.{Line}
use god_os.Boot.Lines.{
  null-Line, failed-Line, header-Line, size-Line, body-Line, info-Line, count-Line, range-Line,
  usable-Line, extend-Line,
}
use god_os.Boot.Says.{say-Leads}
use god_os.Boot.Reads.{
  memory-translate, memory-Mapped, memory-Bytewise, load-agree, info_end_Word, info_end_value,
  load-size_at,
}
use god_os.Boot.Frames.{ends, usable-ends}
use god_os.Boot.Ready.{Booted-Keeps, BootedAt, Returns, Returns-Keeps, size_at}

module _ {D : Type 0} (bus : Bus D) (bss_end : ℕ) (image : bss_end + 4095 < 2 ^ 64) where
  say-Returns :
      {fmt : List ℕ} {args : List Arg} (mb_info : ℕ) (rest : Machine D → Init (Machine D))
      (m : Machine D)
      → Line fmt args
      → ((screen : Screen D) → Returns bss_end mb_info m (rest (record m { screen = screen })))
      → Returns bss_end mb_info m (say bus bss_end fmt args rest m)
  say-Returns mb_info rest m line later =
      say-Leads bus bss_end (Returns bss_end mb_info m) rest m line later

  fail-Returns :
      {fmt : List ℕ} {args : List Arg} (mb_info : ℕ) (m : Machine D)
      → Line fmt args
      → Returns bss_end mb_info m (fail bus bss_end fmt args m)
  unfolding fail
  fail-Returns mb_info m line = say-Returns mb_info (λ m. failed m) m line (λ screen. (_, inl refl))

  set_up-Returns :
      (mb_info info_end : ℕ) (ranges : List Range) (m : Machine D)
      → mb_info < 2 ^ 64
      → info_end < 2 ^ 64
      → Words ranges
      → BootedAt m
      → info_end ≡ mb_info + size_at m.bytes mb_info
      → Returns bss_end mb_info m (set_up bus bss_end mb_info info_end (ends ranges 0) ranges m)
  unfolding set_up bitmap_init
  set_up-Returns mb_info info_end ranges m a b w booted size =
      let max_end = ends ranges 0 in
      let known = record (m.vm.pmm) { mb_info = mb_info; info_end = info_end; max_end = max_end } in
      let valid = bitmap_init-IsValid bss_end ranges known image (a, b) w booted.frames in
      let free = bitmap_init-free bss_end ranges known image (a, b) w booted.frames in
      let extended =
        pmm_extend_identity-Extended max_end m.vm.cr3 m.vm.words booted.identity booted.large
          booted.first in
      elim (Bool-cases (pmm_extend_identity max_end m.vm.cr3 m.vm.words).0) [
        | inr refused ↦ rw refused (
            Returns-Keeps (with_pmm (bitmap_init bss_end ranges known) m) _ (extended.0)
              (fail-Returns mb_info _ (extend-Line max_end)))
        | inl done ↦ rw done (
          _,
          inr (
            refl,
            record {
              information = refl;
              information_end = size;
              same_bytes = refl;
              same_registers = refl;
              children = extended.0.children;
              allocator = valid;
              free_mapped = λ f k h unused lt.
                  let (in_range, _) = free_usable _ _ (sym (free f h) ∙ unused) in
                  let top = usable-ends ranges 0 f w h in_range in
                  extended.1 done (f * 4096 + k) (omega arith) (omega arith);
              free_spared = λ f h unused. (free_usable _ _ (sym (free f h) ∙ unused)).1;
            },
          ),
        )
      ]
    where
      free_usable : (a b : Bool) → not (a && not b) ≡ false → (a ≡ true) × (b ≡ false)
      free_usable a b e = ground arith

  list_ranges-Returns :
      (mb_info i : ℕ) (ranges : List Range) (total max_end : ℕ)
      (rest : ℕ → Machine D → Init (Machine D)) (m : Machine D)
      → ((screen : Screen D)
          → Returns bss_end mb_info m (rest (ends ranges max_end) (record m { screen = screen })))
      → Returns bss_end mb_info m (list_ranges bus bss_end i ranges total max_end rest m)
  unfolding list_ranges
  list_ranges-Returns mb_info i [] total max_end rest m later =
      say-Returns mb_info (rest max_end) m (usable-Line total (total / 2 ^ 20)) later
  list_ranges-Returns mb_info i (r ∷ ranges) total max_end rest m later =
      let next = max_of (range_end r) max_end in
      say-Returns mb_info
        (list_ranges bus bss_end (i + 1) ranges ((total + r.length) % 2 ^ 64) next rest) m
        (range-Line i r.base r.length)
        (λ screen.
          list_ranges-Returns mb_info (i + 1) ranges ((total + r.length) % 2 ^ 64) next rest
            (record m { screen = screen }) later)

  with_info-Returns :
      (mb_info total_size info_end : ℕ) (ranges : List Range) (m : Machine D)
      → mb_info < 2 ^ 64
      → info_end < 2 ^ 64
      → Words ranges
      → BootedAt m
      → info_end ≡ mb_info + size_at m.bytes mb_info
      → Returns bss_end mb_info m (with_info bus bss_end mb_info total_size info_end ranges m)
  unfolding with_info
  with_info-Returns mb_info total_size info_end ranges m a b w booted size =
      say-Returns mb_info _ m (info-Line mb_info total_size) (λ one.
        say-Returns mb_info _ (record m { screen = one }) (count-Line (length ranges))
          (λ two.
            list_ranges-Returns mb_info 0 ranges 0 0
              (λ max_end. set_up bus bss_end mb_info info_end max_end ranges)
              (record m { screen = two })
              (λ three.
                set_up-Returns mb_info info_end ranges (record m { screen = three }) a b w booted
                  size)))

  -- The answers of the two calls of `ensure_2mb_mapped`.
  ensure_then-Returns :
      (mb_info addr len : ℕ) (otherwise rest : Machine D → Init (Machine D)) (m : Machine D)
      → BootedAt m
      → ((w : ℕ → ℕ) → Returns bss_end mb_info (with_words w m) (otherwise (with_words w m)))
      → ((w : ℕ → ℕ)
          → Keeps m.vm.cr3 m.vm.words w
          → ((j : ℕ) → addr ≤ j → j < addr + len → translate m.vm.cr3 w j ≡ some j)
          → Returns bss_end mb_info (with_words w m) (rest (with_words w m)))
      → Returns bss_end mb_info m (ensure_then bus bss_end addr len otherwise rest m)
  unfolding ensure_then
  ensure_then-Returns mb_info addr len otherwise rest m booted refused done =
      let (w, keeps, how) =
        ensure_2mb_mapped-Outcome addr len m.vm.cr3 m.vm.words booted.identity in
      elim how [
        | inl is ↦ rw (is, ensure_then) (Returns-Keeps m w keeps (refused w))
        | inr (is, there) ↦ rw (is, ensure_then) (Returns-Keeps m w keeps (done w keeps there))
      ]

  parse_info-Returns :
      (mb_info total_size : ℕ) (m : Machine D)
      → mb_info < 2 ^ 30
      → load 4 (memory m) mb_info ≡ some total_size
      → Mapped (memory m) mb_info (mb_info + total_size)
      → BootedAt m
      → total_size ≡ size_at m.bytes mb_info
      → Returns bss_end mb_info m (parse_info bus bss_end mb_info total_size m)
  unfolding parse_info
  parse_info-Returns mb_info total_size m low is there booted size =
      let parsed = mb2_init (memory m) false false max_ranges mb_info in
      let (how, few) =
        mb2_init-Safe (memory m) false false max_ranges mb_info total_size (omega arith) is there in
      let w = mb2_init-Words (memory-Bytewise m booted.memory) false false max_ranges mb_info in
      elim how [
        | inr bad ↦ rw (bad, parse_info) (fail-Returns mb_info m failed-Line)
        | inl good ↦
            rw (good, parse_info)
              (with_info-Returns mb_info total_size _ parsed.found m (omega arith)
                (info_end_Word (memory m) false false max_ranges mb_info) w booted
                (info_end_value (memory m) mb_info total_size low is good
                  ∙ ap (λ n. mb_info + n) size))
      ]

  read_info-Returns :
      (mb_info : ℕ) (m : Machine D)
      → mb_info < 2 ^ 30
      → ((j : ℕ) → mb_info ≤ j → j < mb_info + 8 → translate m.vm.cr3 m.vm.words j ≡ some j)
      → BootedAt m
      → Returns bss_end mb_info m (read_info bus bss_end mb_info m)
  unfolding read_info
  read_info-Returns mb_info m low header booted =
      let (total_size, is, _) =
        load-Mapped 4 (memory m) mb_info mb_info (mb_info + 8)
          (memory-Mapped m booted.memory header) (omega arith) (omega arith) in
      let size =
        load-size_at (memory m) m.bytes mb_info
          (λ j a b. memory-translate m j (header j a (omega arith))) in
      elim (Bool-cases (total_size == 0 || ltb 0x100000 total_size)) [
        | inl bad ↦ rw (is, bad, read_info) (fail-Returns mb_info m (size-Line total_size))
        | inr good ↦
            rw (is, good, read_info)
              (ensure_then-Returns mb_info mb_info total_size _
                (parse_info bus bss_end mb_info total_size) m booted
                (λ w. fail-Returns mb_info (with_words w m) (body-Line total_size))
                (λ w keeps there.
                  let m' = with_words w m in
                  let same = load-agree 4 (memory m') (memory m) mb_info (λ j a b.
                    memory-translate m' j (keeps.old j j (header j a (omega arith)))
                    ∙ sym (memory-translate m j (header j a (omega arith)))) in
                  parse_info-Returns mb_info total_size m' low (same ∙ is)
                    (memory-Mapped m' booted.memory there) (Booted-Keeps booted keeps)
                    (some_inj (sym is ∙ size))))
      ]
    where
      some_inj : {a b : ℕ} → some a ≡ some b → a ≡ b
      some_inj e = cc

  -- On tables as the boot code leaves them, and with the kernel image below the top of the addresses,
  -- `pmm_init` returns for every address that it is given, without reading what is not mapped and without a
  -- print that fails. If it returns 0, the allocator is valid and has stored the range of the boot
  -- information, from the address given over the size in its first 4 bytes; every free frame is mapped to
  -- itself and has no byte of the first MB, of the kernel or of that range; and CR3, the address space
  -- and the fault counters are as before.
  pub pmm_init-Returns :
      (mb_info : ℕ) (m : Machine D)
      → BootedAt m
      → Returns bss_end mb_info m (pmm_init bus bss_end mb_info m)
  unfolding pmm_init
  pmm_init-Returns mb_info m booted = elim (Bool-cases (mb_info == 0)) [
    | inl null ↦ rw null (fail-Returns mb_info m null-Line)
    | inr given ↦ rw given (
        ensure_then-Returns mb_info mb_info 8 _ (read_info bus bss_end mb_info) m booted
          (λ w. fail-Returns mb_info _ (header-Line mb_info))
          (λ w keeps there.
            let low =
              translate-low m.vm.cr3 w mb_info mb_info
                (there mb_info (omega arith) (omega arith)) in
            read_info-Returns mb_info (with_words w m) low there (Booted-Keeps booted keeps)))
  ]
