-- ===== src/Dlist/Distinct.antt =====
-- Lists of different addresses with an element taken out.
use fizzos.Base.{◌≡◌, refl, true, false, ◌||◌, ◌==◌, List, [], ◌∷◌, ◌++◌, arith}
use fizzos.Dlist.{Ptr}
use fizzos.Dlist.Chain.{has, has-append, Distinct, Kernel}

-- For an element `e` between `us` and `ys`.
pub record IsBetween (us : List Ptr) (e : Ptr) (ys : List Ptr) : Type 0 where
  pub left : Distinct us
  pub right : Distinct ys
  pub not_left : has e us ≡ false
  pub not_right : has e ys ≡ false
  pub apart : (a : Ptr) → has a us ≡ true → has a ys ≡ false
  pub rest : Distinct (us ++ ys)

pub Distinct-IsBetween :
    (us : List Ptr) (e : Ptr) (ys : List Ptr) → Distinct (us ++ (e ∷ ys)) → IsBetween us e ys
Distinct-IsBetween [] e ys d = record {
  left = tt;
  right = d.1;
  not_left = refl;
  not_right = d.0;
  apart = λ a i. absurd (ground arith);
  rest = d.1;
}
Distinct-IsBetween (x ∷ us) e ys d =
    let b = Distinct-IsBetween us e ys d.1 in
    let o : (has x us || (x == e) || has x ys) ≡ false =
      ground (arith, d.0, has-append x us (e ∷ ys)) in
    record {
      left = (ground arith, b.left);
      right = b.right;
      not_left = ground (arith, b.not_left);
      not_right = b.not_right;
      apart = λ a i. ground (arith, b.apart a);
      rest = (ground (arith, has-append x us ys), b.rest);
    }

pub Kernel-remove :
    (us : List Ptr) (e : Ptr) (ys : List Ptr) → Kernel (us ++ (e ∷ ys)) → Kernel (us ++ ys)
Kernel-remove [] e ys k = k.1
Kernel-remove (x ∷ us) e ys k = (k.0, Kernel-remove us e ys k.1)

pub Kernel-split : (us vs : List Ptr) → Kernel (us ++ vs) → Kernel us × Kernel vs
Kernel-split [] vs k = (tt, k)
Kernel-split (x ∷ us) vs k = let (a, b) = Kernel-split us vs k.1 in ((k.0, a), b)
