-- ===== src/Heap/RoundTrip.antt =====
-- `kmalloc` and `kfree` of src/heap.c together: a request given back at once leaves the blocks as
-- they were.
use god_os.Base.{
  ℕ, ◌+◌, ◌-◌, ◌≤◌, ◌%◌, ◌≡◌, ◌≢◌, refl, ap, ◌∙◌, true, false, ◌&&◌, List, [], ◌∷◌, Option, some,
  none, ◌++◌, arith, Bool-cases, inl, inr, leb,
}
use god_os.Heap.{Heap, ok, kmalloc, kfree, round_up}
use god_os.Heap.Blocks.{Block, used, hole, extent, fits, carve, alloc, absorb, join, release}
use god_os.Heap.Extent.{past-some}
use god_os.Heap.Coalesced.{Tidy, starts_free, some_pair, alloc-Tidy}
use god_os.Heap.Malloc.{Holds, Allocated, request, request-some, kmalloc_refines, round_up_lem}
use god_os.Heap.Free.{kfree_refines}

absorb_stops : (n : ℕ) (bs : List Block) → starts_free bs ≡ false → absorb n bs ≡ (n, bs)
unfolding absorb
absorb_stops n [] h = refl
absorb_stops n (b ∷ bs) h = ground arith

-- Where first fit put the block, and that giving it back restores the list.
record Taken (need o : ℕ) (bs bs' : List Block) : Type 0 where
  pre : List Block
  size : ℕ
  post : List Block
  place : bs' ≡ pre ++ used size ∷ post
  offset : extent pre ≡ o
  enough : need ≤ size
  back : release pre size post ≡ bs
  first : pre ≡ [] → starts_free bs ≡ true

same_block :
    (b : Block) (bs : List Block)
    → b.free ≡ true
    → (b.free && starts_free bs) ≡ false
    → ◌≡◌ {A = List Block} (hole ((absorb b.size bs).0) ∷ (absorb b.size bs).1) (b ∷ bs)
same_block b bs open_block apart = ground (arith, absorb_stops b.size bs)

carve-Taken :
    (need : ℕ) (b : Block) (bs : List Block)
    → fits need b ≡ true
    → Tidy (b ∷ bs)
    → Taken need 0 (b ∷ bs) (carve need b bs)
unfolding carve release absorb extent join
carve-Taken need b bs hit t = elim (Bool-cases (leb 32 (b.size - need))) [
  | inl split ↦
      let whole_again : need + (16 + (b.size - need - 16)) ≡ b.size = ground arith in
      rw split (record {
        pre = [];
        size = need;
        post = hole (b.size - need - 16) ∷ bs;
        place = refl;
        offset = refl;
        enough = omega arith;
        back = rw whole_again (same_block b bs (ground arith) (t.1));
        first = ground arith;
      })
  | inr whole ↦ rw whole (record {
    pre = [];
    size = b.size;
    post = bs;
    place = refl;
    offset = refl;
    enough = ground arith;
    back = same_block b bs (ground arith) (t.1);
    first = ground arith;
  })
]

release-cons :
    (b : Block) (pre : List Block) (n : ℕ) (post : List Block)
    → (pre ≡ [] → b.free ≡ false)
    → release (b ∷ pre) n post ≡ b ∷ release pre n post
unfolding release join
release-cons b [] n post h = ground (arith, h refl)
release-cons b (c ∷ pre) n post h = refl

Taken-past :
    (need o : ℕ) (b : Block) (bs bs' : List Block)
    → Tidy (b ∷ bs)
    → Taken need o bs bs'
    → Taken need (16 + b.size + o) (b ∷ bs) (b ∷ bs')
unfolding extent
Taken-past need o b bs bs' t k = record {
  pre = b ∷ k.pre;
  size = k.size;
  post = k.post;
  place = ap (λ l. b ∷ l) (k.place);
  offset = omega (arith, k.offset);
  enough = k.enough;
  back =
      release-cons b k.pre k.size k.post (λ e. ground (arith, k.first e, t.1))
      ∙ ap (λ l. b ∷ l) (k.back);
  first = λ e. cc;
}

alloc-Taken :
    (need : ℕ) (bs : List Block) (o : ℕ) (bs' : List Block)
    → Tidy bs
    → alloc need bs ≡ some (o, bs')
    → Taken need o bs bs'
unfolding alloc
alloc-Taken need [] o bs' t e = absurd (cc)
alloc-Taken need (b ∷ bs) o bs' t e = elim (Bool-cases (fits need b)) [
  | inl hit ↦
      let (off, same) = some_pair 0 o (carve need b bs) bs' (rw hit at e) in
      rw (← off, ← same) (carve-Taken need b bs hit t)
  | inr miss ↦
      let (o', bs'', eq, off, eq') = past-some b (alloc need bs) o bs' (rw miss at e) in
      rw (off, eq') (Taken-past need o' b bs bs'' t (alloc-Taken need bs o' bs'' (t.2) eq))
]

-- What a caller has of an address `p` for `size` bytes, where the blocks were `bs`: behind a header
-- of the heap `h'` stands a block of at least `size` bytes that is in use, and giving it back leads
-- to `bs` again.
pub record Granted (size : ℕ) (bs : List Block) (p : ℕ) (h' : Heap) : Type 0 where
  pub pre : List Block
  pub room : ℕ
  pub post : List Block
  pub enough : size ≤ room
  pub address : p ≡ h'.start + extent pre + 16
  pub aligned : h'.start % 16 ≡ 0 → p % 16 ≡ 0
  pub holds : Holds (pre ++ used room ∷ post) h'
  pub tidy : Tidy (pre ++ used room ∷ post)
  pub back : release pre room post ≡ bs

granted :
    (size : ℕ) (h : Heap) (bs : List Block) (r : Option (ℕ × List Block)) (p : ℕ) (h' : Heap)
    → Tidy bs
    → request size bs ≡ r
    → Allocated h r (ok (p, h'))
    → p ≢ 0
    → Granted size bs p h'
granted size h bs none p h' t eq out found = absurd (found (ground arith))
granted size h bs (some (o, bs')) p h' t eq (h1, out, kept, v) found =
    let (small, fit) = request-some size bs o bs' eq in
    let up = round_up_lem size small in
    let k = alloc-Taken (round_up size) bs o bs' t fit in
    let (low, tidy) = alloc-Tidy (round_up size) bs o bs' (up.0) t fit in
    let same : h1 ≡ h' = ground arith in
    let addr : p ≡ h.start + (o + 16) = ground arith in
    let start : h'.start ≡ h.start = rw same at kept in
    let far = k.offset in
    record {
      pre = k.pre;
      room = k.size;
      post = k.post;
      enough = omega (arith, k.enough);
      address = omega arith;
      aligned = λ a. omega arith;
      holds = rw (← k.place) (rw same at v);
      tidy = rw (← k.place) tidy;
      back = k.back;
    }

-- An address other than null that `kmalloc` returns lies behind the header of a block in use, of at
-- least the bytes that were asked for, and is a multiple of 16 if the heap starts at one; the block
-- list stays tidy, and giving the block back leads to the list from before.
pub kmalloc-Granted :
    (size : ℕ) {bs : List Block} (h : Heap) (p : ℕ) (h' : Heap)
    → Holds bs h
    → Tidy bs
    → kmalloc size h ≡ ok (p, h')
    → p ≢ 0
    → Granted size bs p h'
kmalloc-Granted size {bs} h p h' v t e found =
    granted size h bs (request size bs) p h' t refl (rw e at (kmalloc_refines size h v)) found

-- Memory from `kmalloc` given back to `kfree` at once: `kfree` returns, and the blocks are those from
-- before the request.
pub kfree-kmalloc :
    (size : ℕ) {bs : List Block} (h : Heap) (p : ℕ) (h' : Heap)
    → Holds bs h
    → Tidy bs
    → kmalloc size h ≡ ok (p, h')
    → p ≢ 0
    → (h'' : Heap) × (kfree p h' ≡ ok h'') × Holds bs h''
kfree-kmalloc size {bs} h p h' v t e found =
    let g = kmalloc-Granted size h p h' v t e found in
    let (h'', out, w) = kfree_refines g.pre g.room g.post h' (g.holds) in
    (h'', rw (g.address) out, rw (g.back) at w)
