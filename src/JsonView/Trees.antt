-- ===== src/JsonView/Trees.antt =====
-- A JSON library over trees, for the runs of the model: it shows that what is asked of the library
-- can be had. Its parser is an argument.
use ai_sdk_cpp.Prelude.{
  ℕ, suc, ◌<◌, max, ◌≡◌, refl, sym, ap, ◌∙◌, inl, inr, Bool, true, false, ◌&&◌, List, [], ◌∷◌,
  Option, none, some, Bytes, str_eq, ℤ, pos, negsuc, ◌==◌, arith, if◌then◌else◌, Bool-cases,
}
use ai_sdk_cpp.Prompt.{Json}
use ai_sdk_cpp.JsonView.{Kind, JsonView, IsFinite, Among}

mutual
  pub data Tree : Type 0 where
    nil : Tree
    flag : Bool → Tree
    num : ℤ → Tree
    text : Bytes → Tree
    arr : Items → Tree
    obj : Fields → Tree

  pub data Items : Type 0 where
    no_item : Items
    item : Tree → Items → Items

  pub data Fields : Type 0 where
    no_field : Fields
    field : Bytes → Tree → Fields → Fields

abbrev pub items_of : List Tree → Items
items_of [] = no_item
items_of (t ∷ ts) = item t (items_of ts)

abbrev pub list_of : Items → List Tree
list_of no_item = []
list_of (item t ts) = t ∷ list_of ts

abbrev pub fields_of : List (Bytes × Tree) → Fields
fields_of [] = no_field
fields_of ((k, t) ∷ fs) = field k t (fields_of fs)

abbrev members_of : Fields → List (Bytes × Tree)
members_of no_field = []
members_of (field k t fs) = (k, t) ∷ members_of fs

unfoldable pub lookup : Fields → Bytes → Option Tree
lookup no_field key = none
lookup (field k t fs) key = if str_eq k key then some t else lookup fs key

unfoldable pub assign : Fields → Bytes → Tree → Fields
assign no_field key v = field key v no_field
assign (field k t fs) key v = if str_eq k key then field k v fs else field k t (assign fs key v)

abbrev int_eq : ℤ → ℤ → Bool
int_eq (pos a) (pos b) = a == b
int_eq (negsuc a) (negsuc b) = a == b
int_eq _ _ = false

abbrev bool_eq : Bool → Bool → Bool
bool_eq true b = b
bool_eq false true = false
bool_eq false false = true

abbrev size : Fields → ℕ
size no_field = 0
size (field k t fs) = suc (size fs)

-- Objects are equal whatever the order of their members.
unfoldable mutual
  pub tree_eq : Tree → Tree → Bool
  tree_eq nil nil = true
  tree_eq (flag a) (flag b) = bool_eq a b
  tree_eq (num a) (num b) = int_eq a b
  tree_eq (text a) (text b) = str_eq a b
  tree_eq (arr a) (arr b) = items_eq a b
  tree_eq (obj a) (obj b) = size a == size b && found_in a b
  tree_eq _ _ = false

  pub items_eq : Items → Items → Bool
  items_eq no_item no_item = true
  items_eq (item t ts) (item u us) = tree_eq t u && items_eq ts us
  items_eq _ _ = false

  pub found_in : Fields → Fields → Bool
  found_in no_field gs = true
  found_in (field k t fs) gs =
      (elim (lookup gs k) [ none ↦ false | some u ↦ tree_eq t u ]) && found_in fs gs

abbrev pub tree_json : (Bytes → Option Tree) → (Tree → Bytes) → Json
tree_json parse write = record {
  Value = Tree;
  Object = Fields;
  empty_object = no_field;
  string = text;
  set = assign;
  object = obj;
  serialize = write;
  safe_parse = parse;
}

abbrev tree_kind :
    (parse : Bytes → Option Tree) (write : Tree → Bytes)
    → Tree
    → Kind (tree_json parse write) (Unit {0})
tree_kind parse write nil = Kind.null_kind
tree_kind parse write (flag b) = Kind.bool_kind b
tree_kind parse write (num n) = Kind.int64_kind n
tree_kind parse write (text s) = Kind.string_kind s
tree_kind parse write (arr ts) = Kind.array_kind (list_of ts)
tree_kind parse write (obj fs) = Kind.object_kind fs

module _ (parse : Bytes → Option Tree) (write : Tree → Bytes) where
  abbrev pub tree_view : JsonView (tree_json parse write)
  tree_view = record {
    Double = Unit {0};
    kind = tree_kind parse write;
    member = lookup;
    members = members_of;
    same = tree_eq;
  }

-- How deep objects stand in each other; an array does not count.
unfoldable mutual
  pub tree_depth : Tree → ℕ
  tree_depth (obj fs) = depth_of fs
  tree_depth _ = 0

  pub depth_of : Fields → ℕ
  depth_of no_field = 1
  depth_of (field k t fs) = max (suc (tree_depth t)) (depth_of fs)

module _ (parse : Bytes → Option Tree) (write : Tree → Bytes) where
  found_here :
      (u t : Tree) (rest : Option Tree) (here : Bool)
      → here ≡ true
      → (if here then some u else rest) ≡ some t
      → t ≡ u
  found_here u t rest here is e = ground (arith, is, e)

  head_less : (d rest inner : ℕ) → inner ≡ d → inner < max (suc d) rest
  head_less d rest inner e = omega (arith, e)

  tail_less : (d rest inner : ℕ) → inner < rest → inner < max (suc d) rest
  tail_less d rest inner h = omega (arith, h)

  kind_depth :
      (t : Tree) (inner : Fields)
      → tree_kind parse write t ≡ Kind.object_kind inner
      → tree_depth t ≡ depth_of inner
  unfolding tree_depth
  kind_depth nil inner e = cc
  kind_depth (flag b) inner e = cc
  kind_depth (num n) inner e = cc
  kind_depth (text s) inner e = cc
  kind_depth (arr ts) inner e = cc
  kind_depth (obj fs) inner e = ground (arith, e)

  lookup_depth :
      (fs : Fields) (key : Bytes) (t : Tree) (inner : Fields)
      → lookup fs key ≡ some t
      → tree_kind parse write t ≡ Kind.object_kind inner
      → depth_of inner < depth_of fs
  unfolding lookup tree_depth
  lookup_depth no_field key t inner e k = cc
  lookup_depth (field j u fs) key t inner e k = elim (Bool-cases (str_eq j key)) [
    | inl hit ↦ head_less (tree_depth u) (depth_of fs) (depth_of inner) (
        sym (kind_depth t inner k)
        ∙ ap tree_depth (found_here u t (lookup fs key) (str_eq j key) hit e))
    | inr miss ↦
        tail_less (tree_depth u) (depth_of fs) (depth_of inner)
          (lookup_depth fs key t inner (ground (arith, e, miss)) k)
  ]

  Among-depth :
      (fs : Fields) (key : Bytes) (t : Tree) (inner : Fields)
      → Among (key, t) (members_of fs)
      → tree_kind parse write t ≡ Kind.object_kind inner
      → depth_of inner < depth_of fs
  unfolding tree_depth
  Among-depth no_field key t inner m k = absurd m
  Among-depth (field j u fs) key t inner (inl e) k =
      omega (arith, kind_depth t inner k, ap (λ (x : Bytes × Tree). tree_depth x.1) e)
  Among-depth (field j u fs) key t inner (inr m) k = omega (arith, Among-depth fs key t inner m k)

  pub tree_finite : IsFinite (tree_view parse write)
  tree_finite = record {
    depth = depth_of;
    member_depth = lookup_depth;
    members_depth = Among-depth;
  }

  pub tree_finite-depth : (fs : Fields) → tree_finite.depth fs ≡ depth_of fs
  unfolding tree_finite
  tree_finite-depth fs = refl
