-- ===== src/Dlist/Bypass.antt =====
-- list_delete of lib/kernel/list.c between two neighbours: the links that it writes, and the chains
-- that they make.
use fizzos.Base.{◌≡◌, ◌≢◌, sym, true, List, ◌∷◌, ◌++◌, arith}
use fizzos.Dlist.{Ptr, null, Links, Mem}
use fizzos.Dlist.Chain.{
  has, last, has-last, ne_of_has, Next, Prev, Kernel, Next-append, Next-split, Next-frame,
  Next-retarget, Prev-append, Prev-split, Prev-frame,
}
use fizzos.Dlist.Delete.{bypassed}
use fizzos.Dlist.Distinct.{IsBetween, Distinct-IsBetween, Kernel-split}
use fizzos.Dlist.Represents.{Represents}

module _ (b e a : Ptr) (h : Links) where
  bypassed_next : b ≢ a → b ≢ e → (bypassed b e a h b).next ≡ a
  unfolding bypassed
  bypassed_next ne ne' = ground arith

  bypassed_prev : a ≢ b → a ≢ e → (bypassed b e a h a).prev ≡ b
  unfolding bypassed
  bypassed_prev ne ne' = ground arith

  bypassed_same_next : (c : Ptr) → c ≢ b → c ≢ e → (bypassed b e a h c).next ≡ (h c).next
  unfolding bypassed
  bypassed_same_next c ne ne' = ground arith

  bypassed_same_prev : (c : Ptr) → c ≢ a → c ≢ e → (bypassed b e a h c).prev ≡ (h c).prev
  unfolding bypassed
  bypassed_same_prev c ne ne' = ground arith

  pub bypassed_other : (c : Ptr) → c ≢ b → c ≢ e → c ≢ a → bypassed b e a h c ≡ h c
  unfolding bypassed
  bypassed_other c ne ne' ne'' = ground arith

-- The links after a bypass, where the neighbours are the last of the front and the head of the rest.
module _ (x : Ptr) (us : List Ptr) (e y : Ptr) (ys : List Ptr) (m : Mem)
    (r : Represents m (x ∷ (us ++ (e ∷ y ∷ ys)))) where
  pub between : IsBetween (x ∷ us) e (y ∷ ys)
  between = Distinct-IsBetween (x ∷ us) e (y ∷ ys) r.distinct

  pub Next-split_inner : Next m.elem (x ∷ us) e × Next m.elem (e ∷ y ∷ ys) null
  Next-split_inner = Next-split m.elem (x ∷ us) (e ∷ y ∷ ys) null r.nexts

  pub Prev-split_inner : Prev m.elem x us × Prev m.elem (last us x) (e ∷ y ∷ ys)
  Prev-split_inner = Prev-split m.elem x us (e ∷ y ∷ ys) r.prevs

  pub Kernel-split_inner : Kernel (x ∷ us) × Kernel (e ∷ y ∷ ys)
  Kernel-split_inner = Kernel-split (x ∷ us) (e ∷ y ∷ ys) r.kernel

  pub l_in : has (last us x) (x ∷ us) ≡ true
  l_in = has-last x us

  pub l_ne_e : last us x ≢ e
  l_ne_e = ne_of_has (last us x) e (x ∷ us) l_in between.not_left

  -- An element of the front is none of the rest, and the other way round.
  pub front_ne : (c d : Ptr) → has c (x ∷ us) ≡ true → has d (y ∷ ys) ≡ true → c ≢ d
  front_ne c d i j q = ne_of_has d c (y ∷ ys) j (between.apart c i) (sym q)

  pub y_in : has y (y ∷ ys) ≡ true
  y_in = ground arith

  pub bypass_nexts : Next (bypassed (last us x) e y m.elem) (x ∷ (us ++ (y ∷ ys))) null
  bypass_nexts =
      Next-append g (x ∷ us) (y ∷ ys) null
        (Next-retarget m.elem g x us e y between.left Next-split_inner.0
          (λ c i ne.
            bypassed_same_next (last us x) e y m.elem c ne
              (ne_of_has c e (x ∷ us) i between.not_left))
          (bypassed_next (last us x) e y m.elem (front_ne (last us x) y l_in y_in) l_ne_e))
        (Next-frame m.elem g (y ∷ ys) null Next-split_inner.1.1 (λ c i.
          bypassed_same_next (last us x) e y m.elem c (λ q. front_ne (last us x) c l_in i (sym q))
            (ne_of_has c e (y ∷ ys) i between.not_right)))
    where
      g : Links
      g = bypassed (last us x) e y m.elem

  pub bypass_prevs : Prev (bypassed (last us x) e y m.elem) x (us ++ (y ∷ ys))
  bypass_prevs =
      Prev-append g x us (y ∷ ys)
        (Prev-frame m.elem g x us Prev-split_inner.0 (λ c i.
          bypassed_same_prev (last us x) e y m.elem c (front_ne c y (in_front c i) y_in)
            (ne_of_has c e (x ∷ us) (in_front c i) between.not_left)))
        (
          bypassed_prev (last us x) e y m.elem (λ q. front_ne (last us x) y l_in y_in (sym q))
              (ne_of_has y e (y ∷ ys) y_in between.not_right),
          Prev-frame m.elem g y ys Prev-split_inner.1.1.1 (λ c i.
              bypassed_same_prev (last us x) e y m.elem c (ne_of_has c y ys i between.right.0)
                (ne_of_has c e (y ∷ ys) (in_rest c i) between.not_right)),
        )
    where
      g : Links
      g = bypassed (last us x) e y m.elem

      in_front : (c : Ptr) → has c us ≡ true → has c (x ∷ us) ≡ true
      in_front c i = ground arith

      in_rest : (c : Ptr) → has c ys ≡ true → has c (y ∷ ys) ≡ true
      in_rest c i = ground arith
