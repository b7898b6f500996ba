-- ===== src/Ptree.antt =====
-- boost::property_tree::ptree as the configuration code uses it. Boost is not part of the
-- repository, so its operations are a parameter with the documented laws that the proofs need.
use nswconfiguration.Common.{ℕ, ◌≡◌, ◌≢◌, String, false, List}
use nswconfiguration.Common.Results.{Result, ok}
use nswconfiguration.Text.{has_dot}

pub record Ptree (Tree : Type 0) : Type 0 where
  -- t.get<unsigned>(path): bad_path where there is no node, bad_data where it is no number.
  pub get_unsigned : Tree → String → Result ℕ
  -- t.get<unsigned>("")
  pub get_value : Tree → Result ℕ
  -- t.get_child(path)
  pub get_child : Tree → String → Result Tree
  -- The direct children in order, as a range-for over the tree meets them.
  pub children : Tree → List (String × Tree)
  -- t.put(path, v)
  pub put : Tree → String → ℕ → Tree
  -- t.erase(key)
  pub erase : Tree → String → Tree
  -- t.add_child(path, child)
  pub add_child : Tree → String → Tree → Tree
  -- The tree of a default constructor
  pub empty : Tree
  -- t.put("", v)
  pub put_value : Tree → ℕ → Tree
  -- t.push_back({key, child})
  pub push_back : Tree → String → Tree → Tree
  -- What is put is read back, and what is not addressed stays.
  pub get_unsigned-put_self : (t : Tree) (k : String) (v : ℕ) → get_unsigned (put t k v) k ≡ ok v
  pub get_unsigned-put_ne :
      (t : Tree) (k j : String) (v : ℕ)
      → has_dot k ≡ false
      → has_dot j ≡ false
      → k ≢ j
      → get_unsigned (put t k v) j ≡ get_unsigned t j
