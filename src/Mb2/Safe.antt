-- ===== src/Mb2/Safe.antt =====
-- The tag walk of src/mb2.c reads only the boot information, ends, and stores no more than it may.
use god_os.Base.{
  ℕ, zero, suc, ◌+◌, ◌-◌, ◌*◌, ◌/◌, ◌%◌, ◌^◌, ◌≤◌, ◌<◌, ◌≡◌, ◌≢◌, refl, ap, ◌==◌, ltb, leb, Bool,
  ◌||◌, some, List, [], length, bit_and, arith, Bool-cases, inl, inr,
}
use mathlib.Core.Path.{subst}
use god_os.Base.Bits.{bit_and-shift, bit_and-mask}
use god_os.Pmm.{Range}
use god_os.Mb2.{Memory, load, align_up8, Status, go, stop, read_tag, walk_tags, max_tags, mb2_init}
use god_os.Mb2.Entries.{Mapped, load-Mapped, Ends, Fine, Walk-cases, read_mmap-Fine}

align_up8_lem : (x : ℕ) → x + 7 < 2 ^ 64 → align_up8 x ≡ (x + 7) / 8 * 8
unfolding align_up8
align_up8_lem x h =
    let down : bit_and (x + 7) (2 ^ 64 - 8) ≡ bit_and ((x + 7) / 8) (2 ^ 61 - 1) * 8 =
      bit_and-shift 3 (x + 7) (2 ^ 61 - 1) in
    let flat : (x + 7) % 2 ^ 64 ≡ x + 7 = omega arith in
    omega (arith, down, bit_and-mask 61 ((x + 7) / 8), ap (λ y. bit_and y (2 ^ 64 - 8)) flat)

module _ {mem : Memory} {lo hi : ℕ} (mapped : Mapped mem lo hi) (top : hi < 2 ^ 63) where
  -- What a tag leads to, and if the walk goes on, that the tag is inside.
  read_tag-Fine :
      (max_ranges limit p kind size : ℕ) (found : List Range)
      → length found ≤ max_ranges
      → lo ≤ p
      → p + size < 2 ^ 64
      → limit ≤ hi
      → Fine max_ranges (read_tag mem max_ranges limit p kind size found)
        × ((found' : List Range)
            → read_tag mem max_ranges limit p kind size found ≡ go found'
            → (8 ≤ size) × (p + size ≤ limit))
  unfolding read_tag
  read_tag-Fine max_ranges limit p kind size found h a b l = elim (Bool-cases (kind == 0)) [
    | inl last ↦ rw last ((inl refl, h), λ f e. absurd (stop_go e))
    | inr more ↦ elim (Bool-cases (ltb size 8 || ltb limit ((p + size) % 2 ^ 64))) [
      | inl bad ↦ rw (more, bad) ((inr refl, h), λ f e. absurd (stop_go e))
      | inr good ↦
          let inside : (8 ≤ size) × (p + size ≤ limit) = ground arith in
          elim (Bool-cases (kind == 6)) [
            | inl map ↦
                rw (more, good, map)
                  (
                    read_mmap-Fine mapped top max_ranges p size found h a (omega arith),
                    λ f e. inside,
                  )
            | inr other ↦ rw (more, good, other) (h, λ f e. inside)
          ]
    ]
  ]
    where
      stop_go : {status : Status} {f f' : List Range} → stop status f ≢ go f'
      stop_go e = cc

  walk_tags-Fine :
      (max_ranges fuel p : ℕ) (found : List Range)
      → length found ≤ max_ranges
      → lo ≤ p
      → p ≤ hi + 7
      → hi + 8 ≤ p + 8 * fuel
      → let (status, found') = walk_tags mem max_ranges hi fuel p found in
        Ends status × (length found' ≤ max_ranges)
  unfolding walk_tags
  walk_tags-Fine max_ranges zero p found h a c f = absurd (omega arith)
  walk_tags-Fine max_ranges (suc fuel) p found h a c f =
      elim (Bool-cases (leb ((p + 8) % 2 ^ 64) hi)) [
        | inr past ↦ rw (past, walk_tags) (inl refl, h)
        | inl inside ↦
            let room : p + 8 ≤ hi = ground arith in
            let flat : (p + 4) % 2 ^ 64 ≡ p + 4 = omega arith in
            let (kind, is_kind, _) = load-Mapped 4 mem p lo hi mapped a (omega arith) in
            let (size, is_size, small) =
              load-Mapped 4 mem (p + 4) lo hi mapped (omega arith) (omega arith) in
            let (fine, next) =
              read_tag-Fine max_ranges hi p kind size found h a (omega arith) (omega arith) in
            elim (Walk-cases (read_tag mem max_ranges hi p kind size found)) [
              | inr (status, found', is) ↦
                  rw (inside, is_kind, flat, is_size, is, walk_tags)
                    (subst (Fine max_ranges) is fine)
              | inl (found', is) ↦
                  let (least, within) = next found' is in
                  let total : (p + size) % 2 ^ 64 ≡ p + size = omega arith in
                  let up = align_up8_lem (p + size) (omega arith) in
                  rw (inside, is_kind, flat, is_size, is, total, walk_tags)
                    (walk_tags-Fine max_ranges fuel (align_up8 (p + size)) found'
                      (subst (Fine max_ranges) is fine) (omega (arith, up)) (omega (arith, up))
                      (omega (arith, up)))
            ]
      ]

-- If the 4 bytes of the total size and all the bytes that it announces are mapped, below 2^62,
-- then `mb2_init` ends without reading any other byte: it returns the ranges found or -1, and it has
-- stored at most `max_ranges` ranges.
pub mb2_init-Safe :
    (mem : Memory) (ranges_null info_end_null : Bool) (max_ranges info_addr total_size : ℕ)
    → info_addr < 2 ^ 62
    → load 4 mem info_addr ≡ some total_size
    → Mapped mem info_addr (info_addr + total_size)
    → let r = mb2_init mem ranges_null info_end_null max_ranges info_addr in
      Ends r.status × (length r.found ≤ max_ranges)
unfolding mb2_init max_tags
mb2_init-Safe mem ranges_null info_end_null max_ranges info_addr total_size low is mapped =
    elim (Bool-cases (ranges_null || info_end_null || max_ranges == 0)) [
      | inl null ↦ rw (null, mb2_init) (inr refl, omega arith)
      | inr given ↦ elim (Bool-cases (total_size == 0 || ltb 0x100000 total_size)) [
        | inl bad ↦ rw (given, is, bad, mb2_init) (inr refl, omega arith)
        | inr good ↦
            let small : total_size ≤ 0x100000 = ground arith in
            let nonzero : 1 ≤ total_size = ground arith in
            let flat : (info_addr + total_size) % 2 ^ 64 ≡ info_addr + total_size = omega arith in
            let start : (info_addr + 8) % 2 ^ 64 ≡ info_addr + 8 = omega arith in
            rw (given, is, good, flat, start, mb2_init)
              (walk_tags-Fine mapped (omega arith) max_ranges max_tags (info_addr + 8) []
                (omega arith) (omega arith) (omega (arith, nonzero)) (omega arith))
      ]
    ]
