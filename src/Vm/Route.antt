-- ===== src/Vm/Route.antt =====
-- The path of an address through the page tables of src/vm.c, and the walk that finds or makes it.
use god_os.Base.{
  ℕ, ◌+◌, ◌*◌, ◌/◌, ◌^◌, ◌≡◌, ◌≢◌, ◌<◌, refl, ap, sym, ◌∙◌, ◌==◌, Bool, false, Option, none, some,
  arith,
}
use mathlib.Core.Path.{subst}
use god_os.Base.Bits.{bit_and-mask}
use god_os.Vm.{Vm, and_then, descend, index_at, last_entry, walk_pd, walk_pdpt, vm_walk}
use god_os.Vm.Entries.{child_of, chain, leaf}
use god_os.Vm.Forest.{Roles, IsForest, Grows, Grows-trans}
use god_os.Vm.Level.{descend-Descends}

pub index_small : (va shift : ℕ) → index_at va shift < 512
index_small va shift = omega (arith, bit_and-mask 9 (va / 2 ^ shift))

-- The tables on the way, and the address of the last entry.
pub record Route (words : ℕ → ℕ) (space va pte : ℕ) : Type 0 where
  pub pdpt : ℕ
  pub pd : ℕ
  pub pt : ℕ
  pub to_pdpt : child_of (words (space + 8 * index_at va 39)) ≡ some pdpt
  pub to_pd : child_of (words (pdpt + 8 * index_at va 30)) ≡ some pd
  pub to_pt : child_of (words (pd + 8 * index_at va 21)) ≡ some pt
  pub last : pte ≡ pt + 8 * index_at va 12

pub Route-leaf :
    {words : ℕ → ℕ} {space va pte : ℕ} → Route words space va pte → leaf words space va ≡ some pte
unfolding leaf
Route-leaf p = rw (p.to_pdpt, p.to_pd, p.to_pt, p.last)

chain-some :
    (o : Option ℕ) (f : ℕ → Option ℕ) {b : ℕ}
    → chain o f ≡ some b
    → (a : ℕ) × (o ≡ some a) × (f a ≡ some b)
chain-some none f e = cc
chain-some (some a) f e = (a, refl, e)

pub leaf-Route :
    (words : ℕ → ℕ) (space va : ℕ) {pte : ℕ}
    → leaf words space va ≡ some pte
    → Route words space va pte
unfolding leaf
leaf-Route words space va e =
    let (pdpt, a, e1) = chain-some (child_of (words (space + 8 * index_at va 39))) _ e in
    let (pd, b, e2) = chain-some (child_of (words (pdpt + 8 * index_at va 30))) _ e1 in
    let (pt, c, e3) = chain-some (child_of (words (pd + 8 * index_at va 21))) _ e2 in
    record {
      pdpt = pdpt;
      pd = pd;
      pt = pt;
      to_pdpt = a;
      to_pd = b;
      to_pt = c;
      last = sym (some_inj e3);
    }
  where
    some_inj : {a b : ℕ} → some a ≡ some b → a ≡ b
    some_inj e = cc

-- The roles of the tables on the way from a PML4.
pub record Placed (r : Roles) (space va pdpt pd pt : ℕ) : Type 0 where
  pub pdpt_level : r.level pdpt ≡ 3
  pub pd_level : r.level pd ≡ 2
  pub pt_level : r.level pt ≡ 1
  pub pt_key :
      r.key pt
      ≡ ((r.key space * 512 + index_at va 39) * 512 + index_at va 30) * 512 + index_at va 21

pub Route-Placed :
    {r : Roles} {s : Vm} {space va pte : ℕ}
    → IsForest r s
    → r.level space ≡ 4
    → (p : Route s.words space va pte) → Placed r space va p.pdpt p.pd p.pt
Route-Placed {space = space} {va = va} forest top p =
    let one =
      forest.child space (index_at va 39) p.pdpt (omega arith) (index_small va 39) p.to_pdpt in
    let two =
      forest.child p.pdpt (index_at va 30) p.pd (omega (arith, one)) (index_small va 30) p.to_pd in
    let three =
      forest.child p.pd (index_at va 21) p.pt (omega (arith, one, two)) (index_small va 21)
        p.to_pt in
    record {
      pdpt_level = omega (arith, one);
      pd_level = omega (arith, one, two);
      pt_level = omega (arith, one, two, three);
      pt_key = omega (arith, one, two, three);
    }

-- A path stays while tables grow.
pub Route-Grows :
    {r : Roles} {s : Vm} {r' : Roles} {s' : Vm} {space va pte : ℕ}
    → IsForest r s
    → r.level space ≡ 4
    → Grows r s r' s'
    → Route s.words space va pte
    → Route s'.words space va pte
Route-Grows {space = space} {va = va} forest top grows p =
    let placed = Route-Placed forest top p in
    record {
      pdpt = p.pdpt;
      pd = p.pd;
      pt = p.pt;
      to_pdpt =
          grows.entries space (index_at va 39) p.pdpt (omega arith) (index_small va 39) p.to_pdpt;
      to_pd =
          grows.entries p.pdpt (index_at va 30) p.pd (omega (arith, placed.pdpt_level))
            (index_small va 30) p.to_pd;
      to_pt =
          grows.entries p.pd (index_at va 21) p.pt (omega (arith, placed.pd_level))
            (index_small va 21) p.to_pt;
      last = p.last;
    }

-- What a walk from a PML4 that finds an entry leaves.
pub record Walks (r : Roles) (s : Vm) (space va : ℕ) (r' : Roles) (pte : ℕ) (s' : Vm) : Type 0 where
  pub forest : IsForest r' s'
  pub grows : Grows r s r' s'
  pub path : Route s'.words space va pte

and_then-some :
    {B : Type 0} (x : Option ℕ × Vm) (f : ℕ → Vm → Option B × Vm) {b : B} {s' : Vm}
    → and_then x f ≡ (some b, s')
    → (a : ℕ) × (t : Vm) × ◌≡◌ {A = Option ℕ × Vm} x (some a, t) × (f a t ≡ (some b, s'))
and_then-some (none, t) f e = absurd (none-some (ap (λ y. y.0) e))
  where
    none-some : {A : Type 0} {c : A} → none ≢ some c
    none-some e = cc
and_then-some (some a, t) f e = (a, t, refl, e)

vm_walk-given :
    (space va : ℕ) (create : Bool) (s : Vm)
    → (space == 0) ≡ false
    → vm_walk space va create s
      ≡ and_then (descend space (index_at va 39) create s) (walk_pdpt va create)
unfolding vm_walk
vm_walk-given space va create s h = rw h

pub vm_walk-Walks :
    {r : Roles} {s : Vm} (space va : ℕ) (create : Bool) {pte : ℕ} {s' : Vm}
    → IsForest r s
    → r.level space ≡ 4
    → (space == 0) ≡ false
    → vm_walk space va create s ≡ (some pte, s')
    → (r' : Roles) × Walks r s space va r' pte s'
unfolding walk_pdpt walk_pd last_entry
vm_walk-Walks {r} {s} space va create {pte} {s'} forest top given e =
    let i = index_at va 39 in
    let j = index_at va 30 in
    let k = index_at va 21 in
    let (pdpt, t1, x1, e1) =
      and_then-some (descend space i create s) (walk_pdpt va create)
        (sym (vm_walk-given space va create s given) ∙ e) in
    let (r1, d1) = descend-Descends space i create forest (index_small va 39) (omega arith) x1 in
    let level1 : r1.level pdpt ≡ 3 = omega (arith, d1.level, d1.grows.levels space) in
    let (pd, t2, x2, e2) = and_then-some (descend pdpt j create t1) (walk_pd va create) e1 in
    let (r2, d2) =
      descend-Descends pdpt j create d1.forest (index_small va 30) (omega (arith, level1)) x2 in
    let level2 : r2.level pd ≡ 2 = omega (arith, level1, d2.level, d2.grows.levels pdpt) in
    let (pt, t3, x3, e3) = and_then-some (descend pd k create t2) (last_entry va) e2 in
    let (r3, d3) =
      descend-Descends pd k create d2.forest (index_small va 21) (omega (arith, level2)) x3 in
    let later = d3.grows.entries in
    let top1 : r1.level space ≡ 4 = omega (arith, d1.grows.levels space) in
    let top2 : r2.level space ≡ 4 = omega (arith, top1, d2.grows.levels space) in
    let level1' : r2.level pdpt ≡ 3 = omega (arith, level1, d2.grows.levels pdpt) in
    let walked : Walks r s space va r3 pte t3 = record {
      forest = d3.forest;
      grows =
          Grows-trans r s r1 t1 r3 t3 d1.grows (Grows-trans r1 t1 r2 t2 r3 t3 d2.grows d3.grows);
      path = record {
        pdpt = pdpt;
        pd = pd;
        pt = pt;
        to_pdpt =
            later space i pdpt (omega (arith, top2)) (index_small va 39)
              (d2.grows.entries space i pdpt (omega (arith, top1)) (index_small va 39) d1.entry);
        to_pd = later pdpt j pd (omega (arith, level1')) (index_small va 30) d2.entry;
        to_pt = d3.entry;
        last = sym (some_inj (ap (λ y. y.0) e3));
      };
    } in
    (r3, subst (λ x. Walks r s space va r3 pte x) (ap (λ y. y.1) e3) walked)
  where
    some_inj : {a b : ℕ} → some a ≡ some b → a ≡ b
    some_inj e = cc
