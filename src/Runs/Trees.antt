-- ===== src/Runs/Trees.antt =====
-- A property tree written out: a value, and the named children in order.
use nswconfiguration.Common.{
  ℕ, ◌≡◌, ◌≢◌, refl, ap, arith, String, str_eq, false, List, [], ◌∷◌, if◌then◌else◌, Option, none,
  some, eq_iff, Bool-cases, inl, inr,
}
use nswconfiguration.Common.Results.{Result, ok, err, bad_path, bad_data}
use text.Mathlib.TextPositions.{eq_refl}
use nswconfiguration.Text.{has_dot}
use nswconfiguration.Ptree.{Ptree}

mutual
  pub data Tree : Type 0 where
    node : Option ℕ → Kids → Tree

  pub data Kids : Type 0 where
    nil : Kids
    kid : String → Tree → Kids → Kids

abbrev pub value_of : Tree → Result ℕ
value_of (node none kids) = err bad_data
value_of (node (some v) kids) = ok v

abbrev pub kids_of : Tree → Kids
kids_of (node v kids) = kids

unfoldable pub find : String → Kids → Option Tree
find k nil = none
find k (kid j t rest) = let later = find k rest in if str_eq j k then some t else later

abbrev pub found_value : Option Tree → Result ℕ
found_value none = err bad_path
found_value (some t) = value_of t

abbrev pub found_tree : Option Tree → Result Tree
found_tree none = err bad_path
found_tree (some t) = ok t

-- The data of a node, its children unchanged.
abbrev pub with_value : ℕ → Tree → Tree
with_value v (node old kids) = node (some v) kids

unfoldable pub put_kids : String → ℕ → Kids → Kids
put_kids k v nil = kid k (node (some v) nil) nil
put_kids k v (kid j t rest) =
    let later = put_kids k v rest in
    if str_eq j k then kid j (with_value v t) rest else kid j t later

unfoldable pub erase_kids : String → Kids → Kids
erase_kids k nil = nil
erase_kids k (kid j t rest) =
    let later = erase_kids k rest in if str_eq j k then later else kid j t later

unfoldable pub add_kid : String → Tree → Kids → Kids
add_kid k u nil = kid k u nil
add_kid k u (kid j t rest) = kid j t (add_kid k u rest)

unfoldable pub kid_list : Kids → List (String × Tree)
kid_list nil = []
kid_list (kid j t rest) = (j, t) ∷ kid_list rest

value-with_value : (v : ℕ) (t : Tree) → value_of (with_value v t) ≡ ok v
value-with_value v (node old kids) = refl

pub find-put_self :
    (k : String) (v : ℕ) (kids : Kids) → found_value (find k (put_kids k v kids)) ≡ ok v
unfolding find put_kids
find-put_self k v nil = rw (eq_refl k) refl
find-put_self k v (kid j t rest) = elim (Bool-cases (str_eq j k)) [
  | inl same ↦ rw (same, same) (value-with_value v t)
  | inr differ ↦ rw (differ, differ) (find-put_self k v rest)
]

pub find-put_ne :
    (k j : String) (v : ℕ) (kids : Kids) → k ≢ j → find j (put_kids k v kids) ≡ find j kids
unfolding find put_kids
find-put_ne k j v nil differ = ground (arith, eq_iff k j)
find-put_ne k j v (kid i t rest) differ =
    ground (arith, eq_iff k j, eq_iff i k, eq_iff i j, find-put_ne k j v rest differ)

abbrev pub put_tree : Tree → String → ℕ → Tree
put_tree (node v kids) k w = node v (put_kids k w kids)

abbrev pub erase_tree : Tree → String → Tree
erase_tree (node v kids) k = node v (erase_kids k kids)

abbrev pub add_tree : Tree → String → Tree → Tree
add_tree (node v kids) k u = node v (add_kid k u kids)

pub put_self :
    (t : Tree) (k : String) (v : ℕ) → found_value (find k (kids_of (put_tree t k v))) ≡ ok v
put_self (node w kids) k v = find-put_self k v kids

pub put_ne :
    (t : Tree) (k j : String) (v : ℕ)
    → has_dot k ≡ false
    → has_dot j ≡ false
    → k ≢ j
    → found_value (find j (kids_of (put_tree t k v))) ≡ found_value (find j (kids_of t))
put_ne (node w kids) k j v plain plain' differ = ap found_value (find-put_ne k j v kids differ)

abbrev pub trees : Ptree Tree
trees = record {
  get_unsigned = λ t k. found_value (find k (kids_of t));
  get_value = value_of;
  get_child = λ t k. found_tree (find k (kids_of t));
  children = λ t. kid_list (kids_of t);
  put = λ t k v. put_tree t k v;
  erase = λ t k. erase_tree t k;
  add_child = λ t k u. add_tree t k u;
  empty = node none nil;
  put_value = λ t v. with_value v t;
  push_back = λ t k u. add_tree t k u;
  get_unsigned-put_self = put_self;
  get_unsigned-put_ne = put_ne;
}
