-- ===== src/Vm/Written.antt =====
-- A word that src/vm.c writes into the last level of the tables, and the addresses it does not concern.
use god_os.Base.{
  ℕ, ◌+◌, ◌*◌, ◌%◌, ◌≡◌, ◌≢◌, ◌<◌, ◌≤◌, ap, sym, refl, ◌∙◌, Option, some, none, arith, inl, inr,
  ◌∷◌, ◌==◌, if◌then◌else◌, Bool-cases, ==_true, false,
}
use mathlib.Core.Path.{subst}
use god_os.Vm.{Vm, put_word, index_at}
use god_os.Vm.Entries.{child_of, chain, leaf}
use god_os.Vm.Forest.{Roles, IsForest, slot_ne}
use god_os.Vm.Route.{Route, Placed, Route-Placed, leaf-Route, index_small}
use god_os.Vm.Lookup.{if_present, lookup, page_of, lookup-Route, Route-ne, lookup-same_page}

-- A word in the entry of a page changes no table above it.
module _ {r : Roles} {s : Vm} (forest : IsForest r s) (pt i v : ℕ) (hi : i < 512)
    (bottom : r.level pt ≡ 1) where
  abbrev pub written : Vm
  written = record s { words = put_word (pt + 8 * i) v s.words }

  written-table :
      (p j : ℕ) → 2 ≤ r.level p → j < 512 → written.words (p + 8 * j) ≡ s.words (p + 8 * j)
  written-table p j h hj =
      let apart =
        slot_ne p j pt i (forest.aligned p (omega arith)) (forest.aligned pt (omega arith)) hj hi
          (inl (λ e. absurd (omega (arith, ap r.level e)))) in
      ground arith

  written-Grows : IsForest r written
  written-Grows = record {
    allocator = forest.allocator;
    aligned = forest.aligned;
    spare = forest.spare;
    child =
        λ p j c h hj e. forest.child p j c h hj (sym (ap child_of (written-table p j h hj)) ∙ e);
  }

  written-Route :
      {space va pte : ℕ}
      → r.level space ≡ 4
      → Route s.words space va pte
      → Route written.words space va pte
  written-Route {space} {va} top p =
      let placed = Route-Placed forest top p in
      record {
        pdpt = p.pdpt;
        pd = p.pd;
        pt = p.pt;
        to_pdpt =
            ap child_of (written-table space (index_at va 39) (omega arith) (index_small va 39))
            ∙ p.to_pdpt;
        to_pd =
            ap child_of (
              written-table p.pdpt (index_at va 30) (omega (arith, placed.pdpt_level))
                (index_small va 30))
            ∙ p.to_pd;
        to_pt =
            ap child_of (
              written-table p.pd (index_at va 21) (omega (arith, placed.pd_level))
                (index_small va 21))
            ∙ p.to_pt;
        last = p.last;
      }

pub is_present : (w : ℕ) → w % 2 ≡ 1 → if_present w ≡ some w
is_present w h = ground arith

-- The state `s'` has tables of the shape, where the processor finds `o` for the page of `va`, and for
-- every other address what it found in the state `s`.
abbrev pub Maps : Roles → ℕ → ℕ → Option ℕ → Vm → Vm → Type 0
Maps r' space va o s s' =
    ((va' : ℕ)
      → lookup s'.words space va'
        ≡ (if page_of va' == page_of va then o else lookup s.words space va'))
    × IsForest r' s'
    × (r'.level space ≡ 4)

chain-ext :
    (o : Option ℕ) (f g : ℕ → Option ℕ) → ((a : ℕ) → o ≡ some a → f a ≡ g a) → chain o f ≡ chain o g
chain-ext none f g h = refl
chain-ext (some a) f g h = h a refl

put_word-other : (slot a v : ℕ) (words : ℕ → ℕ) → a ≢ slot → put_word slot v words a ≡ words a
put_word-other slot a v words ne = ground arith

module _ {r : Roles} {t : Vm} (forest : IsForest r t) {space va pte : ℕ} (top : r.level space ≡ 4)
    (path : Route t.words space va pte) (e : ℕ) where
  placed : Placed r space va path.pdpt path.pd path.pt
  placed = Route-Placed forest top path

  abbrev after : Vm
  after = written forest path.pt (index_at va 12) e (index_small va 12) placed.pt_level

  table :
      (p shift va' : ℕ)
      → 2 ≤ r.level p
      → child_of (after.words (p + 8 * index_at va' shift))
        ≡ child_of (t.words (p + 8 * index_at va' shift))
  table p shift va' h = ap child_of (
      written-table forest path.pt (index_at va 12) e (index_small va 12) placed.pt_level p
        (index_at va' shift) h (index_small va' shift))

  leaf-written : (va' : ℕ) → leaf after.words space va' ≡ leaf t.words space va'
  unfolding leaf
  leaf-written va' =
      let last : ℕ → Option ℕ = λ pt. some (pt + 8 * index_at va' 12) in
      let pds : (ℕ → ℕ) → ℕ → Option ℕ =
        λ words pd. chain (child_of (words (pd + 8 * index_at va' 21))) last in
      let pdpts : (ℕ → ℕ) → ℕ → Option ℕ =
        λ words pdpt. chain (child_of (words (pdpt + 8 * index_at va' 30))) (pds words) in
      ap (λ o. chain o (pdpts after.words)) (table space 39 va' (omega arith))
      ∙ chain-ext (child_of (t.words (space + 8 * index_at va' 39))) (pdpts after.words)
          (pdpts t.words)
          (λ pdpt here.
            let (level, _) =
              forest.child space (index_at va' 39) pdpt (omega arith) (index_small va' 39) here in
            ap (λ o. chain o (pds after.words)) (table pdpt 30 va' (omega arith))
            ∙ chain-ext (child_of (t.words (pdpt + 8 * index_at va' 30))) (pds after.words)
                (pds t.words)
                (λ pd there.
                  let (level', _) =
                    forest.child pdpt (index_at va' 30) pd (omega arith) (index_small va' 30)
                      there in
                  ap (λ o. chain o last) (table pd 21 va' (omega arith))))

  lookup-written :
      (va' : ℕ)
      → lookup after.words space va'
        ≡ (if page_of va' == page_of va then if_present e else lookup t.words space va')
  lookup-written va' = elim (Bool-cases (page_of va' == page_of va)) [
    | inl same ↦
        let here : after.words pte ≡ e = ground (arith, path.last) in
        let path' =
          written-Route forest path.pt (index_at va 12) e (index_small va 12) placed.pt_level top
            path in
        rw same (
          lookup-same_page after.words space va va' (==_true (page_of va') (page_of va) same)
          ∙ lookup-Route path'
          ∙ ap if_present here)
    | inr differ ↦ rw differ (
        unfold lookup in
        ap (λ o. chain o (λ p. if_present (after.words p))) (leaf-written va')
        ∙ chain-ext (leaf t.words space va') (λ p. if_present (after.words p))
            (λ p. if_present (t.words p))
            (λ pte' here.
              ap if_present (other va' pte' differ (leaf-Route t.words space va' here))))
  ]
    where
      other :
          (va' pte' : ℕ)
          → (page_of va' == page_of va) ≡ false
          → Route t.words space va' pte'
          → after.words pte' ≡ t.words pte'
      other va' pte' differ path' =
          let apart : page_of va' ≢ page_of va = ground arith in
          let ne : pte' ≢ pte = Route-ne forest top path' path apart in
          put_word-other _ pte' e t.words (λ q. ne (q ∙ sym path.last))

  pub written-Maps :
      Maps r space va
        (if_present e)
        t
        (record t { words = put_word pte e t.words; flushed = va ∷ t.flushed })
  written-Maps =
      let kept =
        written-Grows forest path.pt (index_at va 12) e (index_small va 12) placed.pt_level in
      subst
        (λ slot.
          Maps r space va (if_present e) t
            (record t { words = put_word slot e t.words; flushed = va ∷ t.flushed }))
        (sym path.last)
        (
          lookup-written,
          record {
            allocator = kept.allocator;
            aligned = kept.aligned;
            spare = kept.spare;
            child = kept.child;
          },
          top,
        )
