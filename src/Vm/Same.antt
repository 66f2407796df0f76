-- ===== src/Vm/Same.antt =====
-- New tables of src/vm.c map nothing: the processor finds every address where it found it before.
use god_os.Base.{ℕ, ◌%◌, ◌≡◌, refl, ap, sym, ◌∙◌, Option, none, some, arith, inl, inr}
use god_os.Vm.{Vm, index_at}
use god_os.Vm.Forest.{Roles, IsForest, Grows}
use god_os.Vm.Route.{Route, Route-Placed, Route-Grows, index_small}
use god_os.Vm.Lookup.{if_present, lookup, lookup-Route, some-lookup}

is_present : (w : ℕ) → w % 2 ≡ 1 → if_present w ≡ some w
is_present w h = ground arith

module _ {r : Roles} {s : Vm} {r' : Roles} {s' : Vm} (forest : IsForest r s)
    (forest' : IsForest r' s') (grows : Grows r s r' s') (space : ℕ) (top : r.level space ≡ 4) where
  later_top : r'.level space ≡ 4
  later_top = omega (arith, grows.levels space)

  -- A path whose last word is present was there before.
  old-Route :
      (va pte : ℕ) → Route s'.words space va pte → s'.words pte % 2 ≡ 1 → Route s.words space va pte
  old-Route va pte path odd =
      let placed = Route-Placed forest' later_top path in
      elim (grows.back path.pd (index_at va 21) path.pt (omega (arith, placed.pd_level))
        (index_small va 21) path.to_pt) [
          | inr new ↦
              let empty : s'.words pte ≡ 0 =
                ap s'.words path.last
                ∙ grows.fresh path.pt (index_at va 12) placed.pt_level new (index_small va 12) in
              absurd (omega arith)
          | inl (high, to_pt) ↦
              elim (grows.back path.pdpt (index_at va 30) path.pd (omega (arith, placed.pdpt_level))
                (index_small va 30) path.to_pd) [
                  | inr new ↦ absurd (omega arith)
                  | inl (higher, to_pd) ↦
                      elim (grows.back space (index_at va 39) path.pdpt (omega (arith, later_top))
                        (index_small va 39) path.to_pdpt) [
                          | inr new ↦ absurd (omega arith)
                          | inl (highest, to_pdpt) ↦ record {
                            pdpt = path.pdpt;
                            pd = path.pd;
                            pt = path.pt;
                            to_pdpt = to_pdpt;
                            to_pd = to_pd;
                            to_pt = to_pt;
                            last = path.last;
                          }
                        ]
                ]
        ]

  same_word : (va pte : ℕ) → Route s.words space va pte → s'.words pte ≡ s.words pte
  same_word va pte path =
      let level = (Route-Placed forest top path).pt_level in
      ap s'.words path.last
      ∙ grows.pages path.pt (index_at va 12) level (index_small va 12)
      ∙ ap s.words (sym path.last)

  pub lookup-Grows : (va : ℕ) → lookup s'.words space va ≡ lookup s.words space va
  lookup-Grows va = before (lookup s.words space va) refl
    where
      after :
          (o : Option ℕ)
          → lookup s.words space va ≡ none
          → lookup s'.words space va ≡ o
          → lookup s'.words space va ≡ none
      after none missing found = found
      after (some e) missing found =
          let (pte, path, odd, is) = some-lookup found in
          let old = old-Route va pte path odd in
          let same = same_word va pte old in
          found
          ∙ (ap some (sym is) ∙ sym (is_present (s'.words pte) odd) ∙ ap if_present same)
          ∙ sym (lookup-Route old)
          ∙ missing

      before :
          (o : Option ℕ)
          → lookup s.words space va ≡ o
          → lookup s'.words space va ≡ lookup s.words space va
      before none missing = after (lookup s'.words space va) missing refl ∙ sym missing
      before (some e) found =
          let (pte, path, odd, is) = some-lookup found in
          lookup-Route (Route-Grows forest top grows path)
          ∙ ap if_present (same_word va pte path)
          ∙ sym (lookup-Route path)
