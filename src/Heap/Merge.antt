-- ===== src/Heap/Merge.antt =====
-- The merging steps of `kfree` in src/heap.c: forward over free blocks, and into the block before.
use god_os.Base.{
  ℕ, zero, suc, ◌+◌, ◌<◌, ◌^◌, ◌≡◌, ◌≢◌, refl, ◌∙◌, true, false, List, [], ◌∷◌, arith, length,
  Bool-cases, inl, inr,
}
use god_os.Heap.{Header, Heap, ok, write, merge_forward, find_prev, merge_back}
use god_os.Heap.Blocks.{Block, hole, absorb, join}
use god_os.Heap.Layout.{header, Lays, Lays-extent, Lays-frame}
use god_os.Heap.Malloc.{Rewrites}

-- Writing a header of a block, the run behind it untouched.
pub write-Rewrites :
    (h : Heap) (a : ℕ) (b : Block) (bs : List Block) (v : Header)
    → v ≡ header b
    → Lays h.mem (a + (16 + b.size)) bs h.limit
    → Rewrites h a (b ∷ bs) (write h a v)
write-Rewrites h a b bs v e l = record {
  start = refl;
  limit = refl;
  blocks =
      (ground arith, Lays-frame h.mem _ (a + (16 + b.size)) bs h.limit (λ x lo hi. ground arith) l);
  below = λ x lt. ground arith;
}

Rewrites-trans :
    (h h' h'' : Heap) (a : ℕ) (bs cs : List Block)
    → Rewrites h a bs h'
    → Rewrites h' a cs h''
    → Rewrites h a cs h''
Rewrites-trans h h' h'' a bs cs v w = record {
  start = w.start ∙ v.start;
  limit = w.limit ∙ v.limit;
  blocks = rw (v.limit) at (w.blocks);
  below = λ x lt. w.below x lt ∙ v.below x lt;
}

pub absorb-kept :
    (n : ℕ) (c : Block) (bs : List Block) → c.free ≡ false → absorb n (c ∷ bs) ≡ (n, c ∷ bs)
unfolding absorb
absorb-kept n c bs e = ground arith

pub absorb-taken :
    (n : ℕ) (c : Block) (bs : List Block)
    → c.free ≡ true
    → absorb n (c ∷ bs) ≡ absorb (n + (16 + c.size)) bs
unfolding absorb
absorb-taken n c bs e = ground arith

-- The forward loop takes up the free blocks behind the hole at `a`, and ends.
pub merge_forward-absorb :
    (fuel a n : ℕ) (h : Heap) (post : List Block)
    → Lays h.mem a (hole n ∷ post) h.limit
    → h.limit < 2 ^ 64
    → length post < fuel
    → (h' : Heap) × (merge_forward fuel a h ≡ ok h')
      × Rewrites h a (hole ((absorb n post).0) ∷ (absorb n post).1) h'
unfolding merge_forward
merge_forward-absorb zero a n h post l small enough = absurd (omega arith)
merge_forward-absorb (suc fuel) a n h [] l small enough =
    unfold absorb in
    (h, ground arith, record { start = refl; limit = refl; blocks = l; below = λ x lt. refl })
merge_forward-absorb (suc fuel) a n h (c ∷ post) l small enough =
    let long = Lays-extent h.mem (a + (16 + n) + (16 + c.size)) post h.limit (l.1.1) in
    elim (Bool-cases c.free) [
      | inl taken ↦
          let k = n + (16 + c.size) in
          let h' = write h a (header (hole k)) in
          let step : merge_forward (suc fuel) a h ≡ merge_forward fuel a h' = ground arith in
          let same : a + (16 + n) + (16 + c.size) ≡ a + (16 + k) = omega arith in
          let w = write-Rewrites h a (hole k) post (header (hole k)) refl (rw same at (l.1.1)) in
          let (h'', out, w') =
            merge_forward-absorb fuel a k h' post (w.blocks) small (omega arith) in
          rw (absorb-taken n c post taken) (h'', step ∙ out, Rewrites-trans h h' h'' a _ _ w w')
      | inr kept ↦
          rw (absorb-kept n c post kept) (
            h,
            ground arith,
            record { start = refl; limit = refl; blocks = l; below = λ x lt. refl },
          )
    ]

-- The address of the last of the blocks `pre` from `cur` on, or `prev` where there is none.
abbrev pub last_at : ℕ → ℕ → List Block → ℕ
last_at prev cur [] = prev
last_at prev cur (b ∷ pre) = last_at cur (cur + (16 + b.size)) pre

pub find_prev-last_at :
    (fuel prev cur b : ℕ) (h : Heap) (pre : List Block)
    → Lays h.mem cur pre b
    → b < 2 ^ 64
    → length pre < fuel
    → find_prev fuel prev cur b h ≡ ok (last_at prev cur pre)
unfolding find_prev
find_prev-last_at zero prev cur b h pre l small enough = absurd (omega arith)
find_prev-last_at (suc fuel) prev cur b h [] l small enough = ground arith
find_prev-last_at (suc fuel) prev cur b h (c ∷ pre) l small enough =
    let long = Lays-extent h.mem (cur + (16 + c.size)) pre b (l.1) in
    ground (arith, find_prev-last_at fuel cur (cur + (16 + c.size)) b h pre (l.1))

pub join-free :
    (c : Block) (m : ℕ) (rest : List Block)
    → c.free ≡ true
    → join (c ∷ []) m rest ≡ hole (c.size + (16 + m)) ∷ rest
unfolding join
join-free c m rest e = ground arith

pub join-used :
    (c : Block) (m : ℕ) (rest : List Block)
    → c.free ≡ false
    → join (c ∷ []) m rest ≡ c ∷ hole m ∷ rest
unfolding join
join-used c m rest e = ground arith

merge_back-one :
    (a b m : ℕ) (h : Heap) (c : Block) (rest : List Block)
    → a ≢ 0
    → Lays h.mem a (c ∷ []) b
    → Lays h.mem b (hole m ∷ rest) h.limit
    → h.limit < 2 ^ 64
    → Rewrites h a (join (c ∷ []) m rest) (merge_back a b h)
unfolding merge_back
merge_back-one a b m h c rest some_addr front back small = elim (Bool-cases c.free) [
  | inl open_before ↦
      let same : b + (16 + m) ≡ a + (16 + (c.size + (16 + m))) = omega arith in
      let long = Lays-extent h.mem (b + (16 + m)) rest h.limit (back.1) in
      let out : merge_back a b h ≡ write h a (header (hole (c.size + (16 + m)))) = ground arith in
      rw (join-free c m rest open_before, out)
        (write-Rewrites h a (hole (c.size + (16 + m))) rest _ refl (rw same at (back.1)))
  | inr closed ↦
      let out : merge_back a b h ≡ h = ground arith in
      rw (join-used c m rest closed, out)
        (record {
          start = refl;
          limit = refl;
          blocks = (front.0, rw (front.1) back);
          below = λ x lt. refl;
        })
]

-- The last step joins the hole at `b` to a free block before it.
pub merge_back-join :
    (a b m : ℕ) (h : Heap) (pre rest : List Block)
    → a ≢ 0
    → Lays h.mem a pre b
    → Lays h.mem b (hole m ∷ rest) h.limit
    → h.limit < 2 ^ 64
    → Rewrites h a (join pre m rest) (merge_back (last_at 0 a pre) b h)
unfolding merge_back join
merge_back-join a b m h [] rest some_addr front back small = record {
  start = refl;
  limit = refl;
  blocks = rw front back;
  below = λ x lt. refl;
}
merge_back-join a b m h (c ∷ []) rest some_addr front back small =
    merge_back-one a b m h c rest some_addr front back small
merge_back-join a b m h (c ∷ d ∷ pre) rest some_addr front back small =
    let w =
      merge_back-join (a + (16 + c.size)) b m h (d ∷ pre) rest (omega arith) (front.1) back small in
    record {
      start = w.start;
      limit = w.limit;
      blocks = (w.below a (omega arith) ∙ front.0, w.blocks);
      below = λ x lt. w.below x (omega arith);
    }
