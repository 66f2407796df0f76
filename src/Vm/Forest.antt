-- ===== src/Vm/Forest.antt =====
-- The shape of the page tables of src/vm.c: which pages are tables, of which level, and for which
-- part of the addresses. A page has one level and one part, so that no two entries share a slot.
use god_os.Base.{
  ℕ, ◌+◌, ◌*◌, ◌%◌, ◌≡◌, ◌≢◌, ◌<◌, ◌≤◌, refl, ◌∙◌, false, some, arith, inl, inr, ◌⊎◌, Bool-cases,
  ◌==◌,
}
use god_os.Pmm.Bitmap.{is_used}
use god_os.Pmm.Invariant.{IsValid}
use god_os.Vm.{Vm}
use god_os.Vm.Entries.{child_of}

-- Of a page: 4 for a PML4 down to 1 for a PT, and 0 for no table; and the entry that leads to it, counted
-- through all tables of its level.
pub record Roles : Type 0 where
  pub level : ℕ → ℕ
  pub key : ℕ → ℕ

pub record IsForest (r : Roles) (s : Vm) : Type 0 where
  pub allocator : IsValid s.pmm
  pub aligned : (p : ℕ) → 0 < r.level p → p % 4096 ≡ 0
  -- No free frame is a table.
  pub spare : (f : ℕ) → is_used s.pmm.bitmap f ≡ false → r.level (f * 4096) ≡ 0
  pub child :
      (p i c : ℕ)
      → 2 ≤ r.level p
      → i < 512
      → child_of (s.words (p + 8 * i)) ≡ some c
      → (r.level c + 1 ≡ r.level p) × (r.key c ≡ r.key p * 512 + i)

-- Tables keep their roles, and present entries of tables above the last level keep their words. Any
-- other entry that leads on leads to a new table, and a new table of the last level is 0.
pub record Grows (r : Roles) (s : Vm) (r' : Roles) (s' : Vm) : Type 0 where
  pub levels : (p : ℕ) → 0 < r.level p → (r'.level p ≡ r.level p) × (r'.key p ≡ r.key p)
  pub entries :
      (p i c : ℕ)
      → 2 ≤ r.level p
      → i < 512
      → child_of (s.words (p + 8 * i)) ≡ some c
      → child_of (s'.words (p + 8 * i)) ≡ some c
  pub pages : (p i : ℕ) → r.level p ≡ 1 → i < 512 → s'.words (p + 8 * i) ≡ s.words (p + 8 * i)
  pub back :
      (p i c : ℕ)
      → 2 ≤ r'.level p
      → i < 512
      → child_of (s'.words (p + 8 * i)) ≡ some c
      → ((2 ≤ r.level p) × (child_of (s.words (p + 8 * i)) ≡ some c)) ⊎ (r.level c ≡ 0)
  pub fresh : (p i : ℕ) → r'.level p ≡ 1 → r.level p ≡ 0 → i < 512 → s'.words (p + 8 * i) ≡ 0

pub Grows-refl : (r : Roles) (s : Vm) → Grows r s r s
Grows-refl r s = record {
  levels = λ p h. (refl, refl);
  entries = λ p i c h hi e. e;
  pages = λ p i h hi. refl;
  back = λ p i c h hi e. inl (h, e);
  fresh = λ p i h none hi. absurd (omega arith);
}

pub Grows-trans :
    (r : Roles) (s : Vm) (r' : Roles) (s' : Vm) (r'' : Roles) (s'' : Vm)
    → Grows r s r' s'
    → Grows r' s' r'' s''
    → Grows r s r'' s''
Grows-trans r s r' s' r'' s'' a b = record {
  levels = λ p h. ground (arith, a.levels p h, b.levels p);
  entries = λ p i c h hi e. b.entries p i c (omega (arith, a.levels p)) hi (a.entries p i c h hi e);
  pages = λ p i h hi. b.pages p i (omega (arith, a.levels p)) hi ∙ a.pages p i h hi;
  back = λ p i c h hi e. elim (b.back p i c h hi e) [
    | inl (h', e') ↦ a.back p i c h' hi e'
    | inr new ↦ inr (ground (arith, a.levels c))
  ];
  fresh = λ p i h none hi. elim (Bool-cases (r'.level p == 0)) [
    | inl new ↦ b.fresh p i h (ground arith) hi
    | inr old ↦
        let last : r'.level p ≡ 1 = ground (arith, b.levels p) in
        b.pages p i last hi ∙ a.fresh p i last none hi
  ];
}

-- What one level of the walk to entry `i` of the table `t` gives: the table `c` behind that entry.
pub record Descends (r : Roles) (s : Vm) (t i : ℕ) (r' : Roles) (c : ℕ) (s' : Vm) : Type 0 where
  pub forest : IsForest r' s'
  pub grows : Grows r s r' s'
  pub entry : child_of (s'.words (t + 8 * i)) ≡ some c
  pub level : r'.level c + 1 ≡ r'.level t
  pub key : r'.key c ≡ r'.key t * 512 + i

-- Entry `i` of a page and entry `j` of another are the same slot only if they are the same entry.
pub slot_ne :
    (p i q j : ℕ)
    → p % 4096 ≡ 0
    → q % 4096 ≡ 0
    → i < 512
    → j < 512
    → ((p ≢ q) ⊎ (i ≢ j))
    → p + 8 * i ≢ q + 8 * j
slot_ne p i q j hp hq hi hj (inl ne) = omega arith
slot_ne p i q j hp hq hi hj (inr ne) = omega arith
