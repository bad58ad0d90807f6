-- ===== src/Engine/Owned.antt =====
-- The blocks that a copied zval owns, those whose release is its own affair. About PHT_ZVAL_DUP of
-- src/pht_zend.h and src/pht_zend.c.
use pht.Common.{ℕ, ◌≤◌, ◌<◌, ◌≡◌, Bool, true, false, Option, none, some, ◌⊎◌}
use pht.Engine.{
  Str, Value, undef, null, false_value, true_value, long, double, string, array, object, resource,
  reference, constant, constant_ast, Array, table, Buckets, end, bucket, Ast, null_ast, zval_node,
  list_node, node, Asts, no_more, child,
}

-- The numbers from `lo` to before `hi`.
abbrev pub Between : ℕ → ℕ → ℕ → Type 0
Between lo hi a = (lo ≤ a) × (a < hi)

abbrev pub FreshStr : ℕ → ℕ → Str → Type 0
FreshStr lo hi s = (s.interned ≡ true) ⊎ Between lo hi s.address

abbrev pub FreshKey : ℕ → ℕ → Option Str → Type 0
FreshKey lo hi none = Unit {0}
FreshKey lo hi (some s) = FreshStr lo hi s

abbrev pub FreshBlock : ℕ → ℕ → Option ℕ → Type 0
FreshBlock lo hi none = Unit {0}
FreshBlock lo hi (some a) = Between lo hi a

-- Every block of the zval, at every depth, is one that is never freed (an interned string, an
-- immutable array) or lies between `lo` and `hi`. A zval that shares an object, a resource or a
-- reference is not.
unfoldable mutual
  pub Fresh : ℕ → ℕ → Value → Type 0
  Fresh lo hi undef = Unit {0}
  Fresh lo hi null = Unit {0}
  Fresh lo hi false_value = Unit {0}
  Fresh lo hi true_value = Unit {0}
  Fresh lo hi (long k) = Unit {0}
  Fresh lo hi (double k) = Unit {0}
  Fresh lo hi (string s) = FreshStr lo hi s
  Fresh lo hi (array a) = FreshArray lo hi a
  Fresh lo hi (object a) = ⊥
  Fresh lo hi (resource a) = ⊥
  Fresh lo hi (reference a v) = ⊥
  Fresh lo hi (constant s) = FreshStr lo hi s
  Fresh lo hi (constant_ast a t) = Between lo hi a × FreshAst lo hi t

  pub FreshArray : ℕ → ℕ → Array → Type 0
  FreshArray lo hi (table a h bs) =
      (h.immutable ≡ true)
      ⊎ (Between lo hi a × FreshBlock lo hi h.data_block × FreshBuckets lo hi bs)

  pub FreshBuckets : ℕ → ℕ → Buckets → Type 0
  FreshBuckets lo hi end = Unit {0}
  FreshBuckets lo hi (bucket i v h k n r) =
      (i ≡ false) × Fresh lo hi v × FreshKey lo hi k × FreshBuckets lo hi r

  pub FreshAst : ℕ → ℕ → Ast → Type 0
  FreshAst lo hi null_ast = Unit {0}
  FreshAst lo hi (zval_node a attr v) = Between lo hi a × Fresh lo hi v
  FreshAst lo hi (list_node a kind attr ts) = Between lo hi a × FreshAsts lo hi ts
  FreshAst lo hi (node a kind attr ts) = Between lo hi a × FreshAsts lo hi ts

  pub FreshAsts : ℕ → ℕ → Asts → Type 0
  FreshAsts lo hi no_more = Unit {0}
  FreshAsts lo hi (child t ts) = FreshAst lo hi t × FreshAsts lo hi ts

abbrev pub InternedKey : Option Str → Type 0
InternedKey none = Unit {0}
InternedKey (some s) = s.interned ≡ true

-- What an immutable array holds: scalars, interned strings and immutable arrays.
unfoldable mutual
  pub Static : Value → Type 0
  Static undef = Unit {0}
  Static null = Unit {0}
  Static false_value = Unit {0}
  Static true_value = Unit {0}
  Static (long k) = Unit {0}
  Static (double k) = Unit {0}
  Static (string s) = s.interned ≡ true
  Static (array a) = StaticArray a
  Static (object a) = ⊥
  Static (resource a) = ⊥
  Static (reference a v) = ⊥
  Static (constant s) = s.interned ≡ true
  Static (constant_ast a t) = ⊥

  pub StaticArray : Array → Type 0
  StaticArray (table a h bs) = h.immutable ≡ true

  pub StaticBuckets : Buckets → Type 0
  StaticBuckets end = Unit {0}
  StaticBuckets (bucket i v h k n r) = (i ≡ false) × Static v × InternedKey k × StaticBuckets r

-- The key of a bucket is interned where the table says that its keys are static.
abbrev pub KeyKept : (static_keys : Bool) → Option Str → Type 0
KeyKept true k = InternedKey k
KeyKept false k = Unit {0}

-- A zval without objects, resources and references, in which the engine's rules for its arrays hold:
-- immutable arrays hold what is static, static keys are interned, a packed array has no keys and no
-- indirect elements.
unfoldable mutual
  pub Copyable : Value → Type 0
  Copyable undef = Unit {0}
  Copyable null = Unit {0}
  Copyable false_value = Unit {0}
  Copyable true_value = Unit {0}
  Copyable (long k) = Unit {0}
  Copyable (double k) = Unit {0}
  Copyable (string s) = Unit {0}
  Copyable (array a) = CopyableArray a
  Copyable (object a) = ⊥
  Copyable (resource a) = ⊥
  Copyable (reference a v) = ⊥
  Copyable (constant s) = Unit {0}
  Copyable (constant_ast a t) = CopyableAst t

  pub CopyableArray : Array → Type 0
  CopyableArray (table a h bs) =
      (h.immutable ≡ true → StaticBuckets bs) × CopyableBuckets h.static_keys h.packed bs

  pub CopyableBuckets : (static_keys packed : Bool) → Buckets → Type 0
  CopyableBuckets s p end = Unit {0}
  CopyableBuckets s p (bucket i v h k n r) =
      (p ≡ true → i ≡ false) × Copyable v × KeyKept s k × CopyableBuckets s p r

  pub CopyableAst : Ast → Type 0
  CopyableAst null_ast = Unit {0}
  CopyableAst (zval_node a attr v) = Copyable v
  CopyableAst (list_node a kind attr ts) = CopyableAsts ts
  CopyableAst (node a kind attr ts) = CopyableAsts ts

  pub CopyableAsts : Asts → Type 0
  CopyableAsts no_more = Unit {0}
  CopyableAsts (child t ts) = CopyableAst t × CopyableAsts ts
