-- ===== src/Boot/Borrow.antt =====
-- What the loops of `pmm_self_test` in src/pmm.c that take and give back frames do to the allocator.
use god_os.Base.{
  ℕ, zero, suc, ◌+◌, ◌*◌, ◌/◌, ◌%◌, ◌≡◌, ◌≢◌, ◌<◌, refl, ap, sym, ◌∙◌, ◌==◌, if◌then◌else◌, Bool,
  true, false, ◌||◌, arith, Bool-cases, inl, inr, List, [], ◌∷◌, length, ==_true,
}
use mathlib.Core.Path.{subst}
use god_os.Pmm.{Pmm, frame_count, alloc_frame, free_frame}
use god_os.Pmm.Bitmap.{is_used}
use god_os.Pmm.Invariant.{IsValid, accepts, free_frame_lem, free_frame-IsValid}
use god_os.Pmm.Alloc.{Lowest, alloc_frame-Handed}
use god_os.Boot.{max_of}
use god_os.Boot.SelfTest.{
  keep, Verdict, fine, no_frame, unaligned, in_kernel, in_info, Taken, take_frames, give_back,
}

-- Frame `g` is one of the frames at these addresses.
abbrev pub member : ℕ → List ℕ → Bool
member g [] = false
member g (pa ∷ frames) = (g == pa / 4096) || member g frames

-- Addresses of different frames that were free.
pub data Free (s : Pmm) : List ℕ → Type 0 where
  no_more : Free s []
  one_more :
      {f : ℕ} {frames : List ℕ}
      → 0 < f
      → f < frame_count
      → is_used s.bitmap f ≡ false
      → member f frames ≡ false
      → Free s frames
      → Free s (f * 4096 ∷ frames)

-- The frames were taken from `s`, which has become `s'`.
pub record Borrowed (s s' : Pmm) (frames : List ℕ) : Type 0 where
  pub valid : IsValid s'
  pub counts : s'.free_frames + length frames ≡ s.free_frames
  pub used : (g : ℕ) → is_used s'.bitmap g ≡ (member g frames || is_used s.bitmap g)
  pub free : Free s frames

-- The allocator has the same frames in use.
pub record Same (s s' : Pmm) : Type 0 where
  pub valid : IsValid s'
  pub counts : s'.free_frames ≡ s.free_frames
  pub used : (g : ℕ) → is_used s'.bitmap g ≡ is_used s.bitmap g

true-false : true ≢ false
true-false e = cc

-- The first of the frames goes back.
free_frame-Borrowed :
    (pa : ℕ) (frames : List ℕ) (s s' : Pmm)
    → Borrowed s s' (pa ∷ frames)
    → Borrowed s (free_frame pa s') frames
free_frame-Borrowed pa frames s s' b = back b.free b
  where
    back :
        {pa : ℕ}
        → Free s (pa ∷ frames)
        → Borrowed s s' (pa ∷ frames)
        → Borrowed s (free_frame pa s') frames
    back (one_more {f = f} pos small was_free apart free) b =
        let index : f * 4096 / 4096 ≡ f = omega arith in
        let self : (f == f * 4096 / 4096) ≡ true = ground arith in
        let taken : is_used s'.bitmap f ≡ true = ground (arith, b.used f) in
        let (frees, count, _) = free_frame_lem (f * 4096) b.valid in
        let aligned : (f * 4096 % 4096 == 0) ≡ true = ground arith in
        let good : accepts s' (f * 4096) ≡ true = ground arith in
        record {
          valid = free_frame-IsValid (f * 4096) b.valid;
          counts = ground (arith, count, b.counts);
          used = λ g. elim (Bool-cases (g == f)) [
            | inl same ↦
                subst
                  (λ q.
                    is_used (free_frame (f * 4096) s').bitmap q
                    ≡ (member q frames || is_used s.bitmap q))
                  (sym (==_true g f same)) (frees f ∙ rw (good, self, apart, was_free))
            | inr other ↦
                let ne : (g == f * 4096 / 4096) ≡ false = ap (λ x. g == x) index ∙ other in
                frees g ∙ rw (good, ne) (b.used g ∙ rw ne)
          ];
          free = free;
        }

pub give_back-Same :
    (frames : List ℕ) (s s' : Pmm) → Borrowed s s' frames → Same s (give_back frames s')
unfolding give_back
give_back-Same [] s s' b = record {
  valid = b.valid;
  counts = omega (arith, b.counts);
  used = b.used;
}
give_back-Same (pa ∷ frames) s s' b =
    give_back-Same frames s (free_frame pa s') (free_frame-Borrowed pa frames s s' b)

-- A test that calls an address no frame exactly if it is 0.
abbrev pub Spots : (ℕ → Pmm → Verdict) → Type 0
Spots test =
    (pa : ℕ) (s : Pmm) → ((test pa s ≡ no_frame) → pa ≡ 0) × (pa ≡ 0 → test pa s ≡ no_frame)

-- Free after a frame was taken is free before, and not that frame.
Free-was :
    (s s' : Pmm) (f : ℕ) {frames : List ℕ}
    → ((g : ℕ) → is_used s'.bitmap g ≡ (if g == f then true else is_used s.bitmap g))
    → Free s' frames
    → Free s frames × (member f frames ≡ false)
Free-was s s' f takes no_more = (no_more, refl)
Free-was s s' f takes (one_more {f = h} {frames} pos small free apart rest) =
    let (rest', out) = Free-was s s' f takes rest in
    let index : h * 4096 / 4096 ≡ h = omega arith in
    elim (Bool-cases (h == f)) [
      | inl same ↦ absurd (true-false (sym (takes h ∙ rw same) ∙ free))
      | inr other ↦
          let ne : (f == h * 4096 / 4096) ≡ false = ground arith in
          (one_more pos small (sym (takes h ∙ rw other) ∙ free) apart rest', rw ne out)
    ]

none_Borrowed : {s : Pmm} → IsValid s → Borrowed s s []
none_Borrowed v = record { valid = v; counts = omega arith; used = λ g. refl; free = no_more }

one_Borrowed :
    {s s' s'' : Pmm} {frames : List ℕ} (f : ℕ)
    → 0 < f
    → Lowest s f s'
    → Borrowed s' s'' frames
    → Borrowed s s'' (f * 4096 ∷ frames)
one_Borrowed {s} {s'} {s''} {frames} f pos lowest b =
    let (free, apart) = Free-was s s' f lowest.takes b.free in
    let index : f * 4096 / 4096 ≡ f = omega arith in
    record {
      valid = b.valid;
      counts = omega (arith, b.counts, lowest.counts);
      used = λ g.
          both (g == f) (member g frames) (is_used s.bitmap g)
            (b.used g ∙ ap (λ x. member g frames || x) (lowest.takes g))
          ∙ ap (λ x. (g == x || member g frames) || is_used s.bitmap g) (sym index);
      free = one_more pos lowest.small lowest.was_free apart free;
    }
  where
    both :
        {used : Bool} (here m u : Bool)
        → used ≡ (m || (if here then true else u))
        → used ≡ ((here || m) || u)
    both here m u e = ground arith

keep-Borrowed :
    {s s' : Pmm} (v : Verdict) (i f max_pa : ℕ) (rest : Taken)
    → v ≢ no_frame
    → 0 < f
    → Lowest s f s'
    → Borrowed s' rest.pmm rest.frames
    → let t = keep v i (f * 4096) max_pa s' rest in Borrowed s t.pmm t.frames
unfolding keep
keep-Borrowed fine i f max_pa rest some pos lowest b = one_Borrowed f pos lowest b
keep-Borrowed no_frame i f max_pa rest some pos lowest b = absurd (some refl)
keep-Borrowed unaligned i f max_pa rest some pos lowest b =
    one_Borrowed f pos lowest (none_Borrowed lowest.valid)
keep-Borrowed in_kernel i f max_pa rest some pos lowest b =
    one_Borrowed f pos lowest (none_Borrowed lowest.valid)
keep-Borrowed in_info i f max_pa rest some pos lowest b =
    one_Borrowed f pos lowest (none_Borrowed lowest.valid)

-- Whatever the test, the frames of a loop are borrowed from the allocator.
pub take_frames-Borrowed :
    (test : ℕ → Pmm → Verdict) (n i max_pa : ℕ) (s : Pmm)
    → Spots test
    → IsValid s
    → let t = take_frames test n i max_pa s in Borrowed s t.pmm t.frames
unfolding take_frames keep
take_frames-Borrowed test zero i max_pa s spots v = none_Borrowed v
take_frames-Borrowed test (suc n) i max_pa s spots v =
    let got = alloc_frame s in
    let t = take_frames test n (i + 1) (max_of got.0 max_pa) got.1 in
    elim (alloc_frame-Handed s v) [
      | inl (zero_address, same, _, _) ↦
          let stopped = (spots got.0 got.1).1 zero_address in
          subst (λ x. let r = keep x i got.0 max_pa got.1 t in Borrowed s r.pmm r.frames)
            (sym stopped) (stays i got.0 max_pa got.1 t same)
      | inr (f, address, nonzero, lowest) ↦
          subst
            (λ a. let r = keep (test got.0 got.1) i a max_pa got.1 t in Borrowed s r.pmm r.frames)
            (sym address)
            (keep-Borrowed (test got.0 got.1) i f max_pa t (λ e. nonzero ((spots got.0 got.1).0 e))
              (omega arith) lowest
              (take_frames-Borrowed test n (i + 1) (max_of got.0 max_pa) got.1 spots lowest.valid))
    ]
  where
    stays :
        (i pa max_pa : ℕ) (s' : Pmm) (t : Taken)
        → s' ≡ s
        → let r = keep no_frame i pa max_pa s' t in Borrowed s r.pmm r.frames
    stays i pa max_pa s' t same = subst (λ x. Borrowed s x []) (sym same) (none_Borrowed v)
