-- ===== src/Copy/Classes.antt =====
-- The functions of src/pht_copy.c that copy a class. A class of the old thread is a finite tree: its
-- parent, interfaces and traits, and the classes that the rules for its traits name, stand in it. A
-- class of the new thread is known by its address. An empty table of interfaces, traits, aliases or
-- precedences is NULL. A class that is copied has the type ZEND_USER_CLASS and its copy the reference
-- count 1; the counts of a class are the lengths of its tables.
use pht.Common.{ℕ, Bool, List, [], ◌∷◌, Option}
use pht.PhtString.{Bytes}
use pht.Engine.{Str, Value, Memory}
use pht.Copy.Tables.{Table}
use pht.Copy.Functions.{Block, Function, Copying, with_memory}
use pht.Copy.Constants.{ClassConstant}

-- zend_property_info
pub record PropertyInfo : Type 0 where
  pub offset : ℕ
  pub flags : ℕ
  pub name : Str
  pub doc_comment : Option Str
  pub ce : ℕ

-- What a class has of its own. `Hooks` are the function pointers of the engine that are copied as they
-- are: create_object, get_iterator, interface_gets_implemented, get_static_method, serialize,
-- unserialize, and iterator_funcs.
pub record Fields (Op Internal Hooks : Type 0) : Type 0 where
  pub name : Str
  pub anonymous : Bool
  pub ce_flags : ℕ
  pub default_properties : Option (List Value)
  pub default_static_members : Option (List Value)
  pub function_table : Table (Function Op Internal)
  pub properties_info : Table PropertyInfo
  pub constants_table : Table ClassConstant
  pub hooks : Hooks
  pub filename : Str
  pub line_start : ℕ
  pub line_end : ℕ
  pub doc_comment : Option Str

-- The classes of the old thread.
mutual
  pub data Class (F : Type 0) : Type 0 where
    internal_class : (name : Str) → Class F
    user_class :
        F
        → (parent : Optional F) (interfaces traits : Classes F) → Aliases F
        → Precedences F
        → Class F

  pub data Optional (F : Type 0) : Type 0 where
    no_class : Optional F
    class : Class F → Optional F

  pub data Classes (F : Type 0) : Type 0 where
    no_classes : Classes F
    more : Optional F → Classes F → Classes F

  pub data Reference (F : Type 0) : Type 0 where
    method_reference : (method_name : Str) (ce : Optional F) (class_name : Option Str) → Reference F

  pub data Aliases (F : Type 0) : Type 0 where
    no_aliases : Aliases F
    alias : Reference F → (alias : Option Str) (modifiers : ℕ) → Aliases F → Aliases F

  -- The first word that exclude_from_classes points to, a union of a class and its name: the class once
  -- the traits are bound, the name before. No other word is read.
  pub data Excluded (F : Type 0) : Type 0 where
    nothing_excluded : Excluded F
    excluded_class : Optional F → Excluded F
    excluded_name : Str → Excluded F

  pub data Precedences (F : Type 0) : Type 0 where
    no_precedences : Precedences F
    precedence : Reference F → (exclude_from_classes : Excluded F) → Precedences F → Precedences F

-- The same of the new thread.
pub record NewReference : Type 0 where
  pub address : ℕ
  pub method_name : Str
  pub ce : Option ℕ
  pub class_name : Option Str

pub record NewAlias : Type 0 where
  pub address : ℕ
  pub trait_method : NewReference
  pub alias : Option Str
  pub modifiers : ℕ

pub record NewPrecedence : Type 0 where
  pub address : ℕ
  pub trait_method : NewReference
  pub exclude_from_classes : Option ℕ

-- What create_new_ce fills in before it comes to the interfaces.
pub record Body (Op Internal : Type 0) : Type 0 where
  pub default_properties_table : Option (Block (List Value))
  pub default_static_members_table : Option (Block (List Value))
  pub static_members_table : Option (Block (List Value))
  pub function_table : Table (Function Op Internal)
  pub properties_info : Table PropertyInfo
  pub constants_table : Table ClassConstant
  pub magic : List (Option (Function Op Internal))

pub record NewClass (Op Internal Hooks : Type 0) : Type 0 where
  pub name : Str
  pub parent : Option ℕ
  pub ce_flags : ℕ
  pub body : Body Op Internal
  pub hooks : Hooks
  pub interfaces : Option (Block (List (Option ℕ)))
  pub traits : Option (Block (List (Option ℕ)))
  pub trait_aliases : Option (Block (List NewAlias))
  pub trait_precedences : Option (Block (List NewPrecedence))
  pub filename : Str
  pub line_start : ℕ
  pub line_end : ℕ
  pub doc_comment : Option Str

-- The state while classes are copied: what copying keeps, and the classes made, the last first.
pub record Loading (C : Type 0) : Type 0 where
  pub copying : Copying
  pub created : List (ℕ × C)

abbrev pub taking : {C : Type 0} → Loading C → Memory → Loading C
taking s m = record s { copying = with_memory s.copying m }

abbrev construct_name : Bytes
construct_name = 95 ∷ 95 ∷ 99 ∷ 111 ∷ 110 ∷ 115 ∷ 116 ∷ 114 ∷ 117 ∷ 99 ∷ 116 ∷ []

abbrev destruct_name : Bytes
destruct_name = 95 ∷ 95 ∷ 100 ∷ 101 ∷ 115 ∷ 116 ∷ 114 ∷ 117 ∷ 99 ∷ 116 ∷ []

abbrev clone_name : Bytes
clone_name = 95 ∷ 95 ∷ 99 ∷ 108 ∷ 111 ∷ 110 ∷ 101 ∷ []

abbrev get_name : Bytes
get_name = 95 ∷ 95 ∷ 103 ∷ 101 ∷ 116 ∷ []

abbrev set_name : Bytes
set_name = 95 ∷ 95 ∷ 115 ∷ 101 ∷ 116 ∷ []

abbrev unset_name : Bytes
unset_name = 95 ∷ 95 ∷ 117 ∷ 110 ∷ 115 ∷ 101 ∷ 116 ∷ []

abbrev isset_name : Bytes
isset_name = 95 ∷ 95 ∷ 105 ∷ 115 ∷ 115 ∷ 101 ∷ 116 ∷ []

abbrev call_name : Bytes
call_name = 95 ∷ 95 ∷ 99 ∷ 97 ∷ 108 ∷ 108 ∷ []

abbrev callstatic_name : Bytes
callstatic_name = 95 ∷ 95 ∷ 99 ∷ 97 ∷ 108 ∷ 108 ∷ 115 ∷ 116 ∷ 97 ∷ 116 ∷ 105 ∷ 99 ∷ []

abbrev tostring_name : Bytes
tostring_name = 95 ∷ 95 ∷ 116 ∷ 111 ∷ 115 ∷ 116 ∷ 114 ∷ 105 ∷ 110 ∷ 103 ∷ []

abbrev debuginfo_name : Bytes
debuginfo_name = 95 ∷ 95 ∷ 100 ∷ 101 ∷ 98 ∷ 117 ∷ 103 ∷ 105 ∷ 110 ∷ 102 ∷ 111 ∷ []

abbrev serialize_name : Bytes
serialize_name = 115 ∷ 101 ∷ 114 ∷ 105 ∷ 97 ∷ 108 ∷ 105 ∷ 122 ∷ 101 ∷ []

abbrev unserialize_name : Bytes
unserialize_name = 117 ∷ 110 ∷ 115 ∷ 101 ∷ 114 ∷ 105 ∷ 97 ∷ 108 ∷ 105 ∷ 122 ∷ 101 ∷ []

-- The names under which create_new_ce looks for the methods that the engine calls.
abbrev pub magic_names : List Bytes
magic_names =
    construct_name ∷ destruct_name ∷ clone_name ∷ get_name ∷ set_name ∷ unset_name ∷ isset_name
    ∷ call_name ∷ callstatic_name ∷ tostring_name ∷ debuginfo_name ∷ serialize_name
    ∷ unserialize_name ∷ []
