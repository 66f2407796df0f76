-- ===== src/Vm/Lookup.antt =====
-- The entry of the page of an address, as the processor finds it in the tables of src/vm.c.
use god_os.Base.{
  ℕ, ◌+◌, ◌*◌, ◌/◌, ◌%◌, ◌^◌, ◌≡◌, ◌≢◌, refl, ap, sym, ◌∙◌, ◌==◌, if◌then◌else◌, Option, none, some,
  arith, Bool-cases, inl, inr, ==_true,
}
use god_os.Base.Bits.{bit_and-mask}
use god_os.Vm.{Vm, index_at}
use god_os.Vm.Entries.{chain, leaf}
use god_os.Vm.Forest.{Roles, IsForest, slot_ne}
use god_os.Vm.Route.{Route, Route-leaf, leaf-Route, Route-Placed, index_small}

abbrev pub if_present : ℕ → Option ℕ
if_present w = if w % 2 == 1 then some w else none

-- The entry of the page of an address, where it is present.
unfoldable pub lookup : (ℕ → ℕ) → ℕ → ℕ → Option ℕ
lookup words space va = chain (leaf words space va) (λ pte. if_present (words pte))

-- The number of the page of an address, in the 48 bits that the tables translate.
abbrev pub page_of : ℕ → ℕ
page_of va = va / 2 ^ 12 % 2 ^ 36

pub lookup-Route :
    {words : ℕ → ℕ} {space va pte : ℕ}
    → Route words space va pte
    → lookup words space va ≡ if_present (words pte)
unfolding lookup
lookup-Route {words} p = ap (λ o. chain o (λ pte. if_present (words pte))) (Route-leaf p)

page_parts :
    (va : ℕ)
    → page_of va
      ≡ ((index_at va 39 * 512 + index_at va 30) * 512 + index_at va 21) * 512 + index_at va 12
page_parts va = omega (
  arith,
  bit_and-mask 9 (va / 2 ^ 39),
  bit_and-mask 9 (va / 2 ^ 30),
  bit_and-mask 9 (va / 2 ^ 21),
  bit_and-mask 9 (va / 2 ^ 12),
)

-- Two pages of one address space have two entries.
pub Route-ne :
    {r : Roles} {s : Vm} {space va va' pte pte' : ℕ}
    → IsForest r s
    → r.level space ≡ 4
    → Route s.words space va pte
    → Route s.words space va' pte'
    → page_of va ≢ page_of va'
    → pte ≢ pte'
Route-ne {r = r} {va = va} {va' = va'} forest top p p' ne e =
    let a = Route-Placed forest top p in
    let b = Route-Placed forest top p' in
    elim (Bool-cases (p.pt == p'.pt)) [
      | inl same ↦
          let pt_same = ==_true p.pt p'.pt same in
          ne (
            omega (
              arith,
              a.pt_key,
              b.pt_key,
              ap r.key pt_same,
              pt_same,
              p.last,
              p'.last,
              e,
              page_parts va,
              page_parts va',
              index_small va 12,
              index_small va' 12,
              index_small va 21,
              index_small va' 21,
              index_small va 30,
              index_small va' 30,
              index_small va 39,
              index_small va' 39,
            ))
      | inr differ ↦
          slot_ne p.pt (index_at va 12) p'.pt (index_at va' 12)
            (forest.aligned p.pt (omega (arith, a.pt_level)))
            (forest.aligned p'.pt (omega (arith, b.pt_level))) (index_small va 12)
            (index_small va' 12) (inl (ground arith)) (sym p.last ∙ e ∙ p'.last)
    ]

pub some-lookup :
    {words : ℕ → ℕ} {space va e : ℕ}
    → lookup words space va ≡ some e
    → (pte : ℕ) × Route words space va pte × (words pte % 2 ≡ 1) × (words pte ≡ e)
unfolding lookup
some-lookup {words} {space} {va} {e} h = found (leaf words space va) refl h
  where
    is_some : (w : ℕ) → if_present w ≡ some e → (w % 2 ≡ 1) × (w ≡ e)
    is_some w h = ground arith

    found :
        (o : Option ℕ)
        → leaf words space va ≡ o
        → chain o (λ pte. if_present (words pte)) ≡ some e
        → (pte : ℕ) × Route words space va pte × (words pte % 2 ≡ 1) × (words pte ≡ e)
    found none is h = cc
    found (some pte) is h =
        let (odd, same) = is_some (words pte) h in (pte, leaf-Route words space va is, odd, same)

-- Two addresses of one page have one entry.
pub lookup-same_page :
    (words : ℕ → ℕ) (space va va' : ℕ)
    → page_of va' ≡ page_of va
    → lookup words space va' ≡ lookup words space va
unfolding lookup leaf
lookup-same_page words space va va' e =
    let a : index_at va' 39 ≡ index_at va 39 = omega (
      arith,
      e,
      page_parts va,
      page_parts va',
      index_small va 12,
      index_small va' 12,
      index_small va 21,
      index_small va' 21,
      index_small va 30,
      index_small va' 30,
    ) in
    let b : index_at va' 30 ≡ index_at va 30 = omega (
      arith,
      e,
      page_parts va,
      page_parts va',
      index_small va 12,
      index_small va' 12,
      index_small va 21,
      index_small va' 21,
      index_small va 30,
      index_small va' 30,
    ) in
    let c : index_at va' 21 ≡ index_at va 21 = omega (
      arith,
      e,
      page_parts va,
      page_parts va',
      index_small va 12,
      index_small va' 12,
      index_small va 21,
      index_small va' 21,
      index_small va 30,
      index_small va' 30,
    ) in
    let d : index_at va' 12 ≡ index_at va 12 = omega (
      arith,
      e,
      page_parts va,
      page_parts va',
      index_small va 12,
      index_small va' 12,
      index_small va 21,
      index_small va' 21,
      index_small va 30,
      index_small va' 30,
    ) in
    rw (a, b, c, d)
