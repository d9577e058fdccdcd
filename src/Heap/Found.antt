-- ===== src/Heap/Found.antt =====
-- A live chunk found in the heap: what stands before and behind it, and the links around it.
use disagg_shmem_allocator.Base.{
  ℕ, ◌+◌, ◌-◌, ◌≡◌, sym, ap, ◌∙◌, subst, inl, inr, List, [], ◌∷◌, ◌++◌, arith,
}
use disagg_shmem_allocator.Layout.{Region}
use disagg_shmem_allocator.Heap.Seg.{Chunk, free, live, Seg, Seg-split}
use disagg_shmem_allocator.Heap.Places.{LiveIn, extent, Seg-extent}
use disagg_shmem_allocator.Heap.State.{IsHeap}
use disagg_shmem_allocator.Heap.State.Release.{Placed}

record Around (o : ℕ) (cs : List Chunk) (b m : ℕ) : Type 0 where
  pre : List Chunk
  post : List Chunk
  parts : cs ≡ pre ++ live m ∷ post
  at : b ≡ o + extent pre

around : (o : ℕ) (cs : List Chunk) (b m : ℕ) → LiveIn o cs b m → Around o cs b m
unfolding extent
around o [] b m l = absurd l
around o (free n ∷ cs) b m l =
    let a = around (o + n) cs b m l in
    record {
      pre = free n ∷ a.pre;
      post = a.post;
      parts = ap (λ t. free n ∷ t) a.parts;
      at = omega (arith, a.at);
    }
around o (live n ∷ cs) b m (inl p) = record {
  pre = [];
  post = cs;
  parts = ap (λ t. live t ∷ cs) p.1;
  at = omega (arith, p.0);
}
around o (live n ∷ cs) b m (inr l) =
    let a = around (o + n) cs b m l in
    record {
      pre = live n ∷ a.pre;
      post = a.post;
      parts = ap (λ t. live n ∷ t) a.parts;
      at = omega (arith, a.at);
    }

pub record Found (r : Region) (cs : List Chunk) (b m : ℕ) : Type 0 where
  pub pre : List Chunk
  pub post : List Chunk
  pub parts : cs ≡ pre ++ live m ∷ post
  pub at : b ≡ 0 + extent pre
  pub placed : Placed r pre m post b

pub LiveIn-Found :
    (r : Region) (cs : List Chunk) (b m : ℕ) → IsHeap r cs → LiveIn 0 cs b m → Found r cs b m
LiveIn-Found r cs b m i l =
    let a = around 0 cs b m l in
    let e = r.size - r.hdr.data_offset in
    let s = subst (λ t. Seg r.blk 0 t e r.hdr.free_list 0) a.parts i.chunks in
    let p = Seg-split r.blk 0 a.pre (live m ∷ a.post) e r.hdr.free_list 0 s in
    let here : p.mid ≡ b =
      Seg-extent r.blk 0 a.pre p.mid r.hdr.free_list p.link p.left ∙ sym a.at in
    record {
      pre = a.pre;
      post = a.post;
      parts = a.parts;
      at = a.at;
      placed = record {
        mid = p.link;
        left = subst (λ t. Seg r.blk 0 a.pre t r.hdr.free_list p.link) here p.left;
        this = (subst (λ t. Seg r.blk t (live m ∷ a.post) e p.link 0) here p.right).0;
        right = (subst (λ t. Seg r.blk t (live m ∷ a.post) e p.link 0) here p.right).1;
      };
    }
