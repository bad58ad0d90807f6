-- ===== src/Classes/Registration.antt =====
-- The end of each file of src/classes: the entry of the class or interface, with its handlers. The
-- methods of a class are in the modules of the classes; the offset of an object in its block is not
-- modelled.
use pht.Common.{
  ◌≡◌, refl, Bool, true, false, List, [], ◌∷◌, ◌++◌, Option, none, some, on_value, if◌then◌else◌,
  Run, ok, fault, ◌>>=◌, Returns, deref,
}
use pht.PhtString.{Bytes}

-- The functions that make the object of a class.
pub data Creator : Type 0 where
  thread_creator queue_creator hash_table_creator vector_creator atomic_integer_creator : Creator

-- The members of zend_object_handlers that are not the standard ones.
pub data Handler : Type 0 where
  dtor_obj free_obj read_property write_property read_dimension write_dimension : Handler
  has_dimension unset_dimension get_properties get_debug_info : Handler

-- zend_class_entry. `internal` is the type ZEND_INTERNAL_CLASS, `guarded` tells whether
-- `interface_gets_implemented` is threaded_interface_gets_implemented.
pub record ClassEntry : Type 0 where
  pub name : Bytes
  pub internal : Bool
  pub is_interface : Bool
  pub final : Bool
  pub serializes : Bool
  pub create_object : Option Creator
  pub interfaces : List Bytes
  pub guarded : Bool
  pub handlers : List Handler

-- The class table, and the variables Runnable_ce and Threaded_ce, NULL at first.
pub record Registry : Type 0 where
  pub class_table : List ClassEntry
  pub runnable_ce : Option ClassEntry
  pub threaded_ce : Option ClassEntry

abbrev runnable_name : Bytes
runnable_name = 112 ∷ 104 ∷ 116 ∷ 92 ∷ 82 ∷ 117 ∷ 110 ∷ 110 ∷ 97 ∷ 98 ∷ 108 ∷ 101 ∷ []

abbrev threaded_name : Bytes
threaded_name = 112 ∷ 104 ∷ 116 ∷ 92 ∷ 84 ∷ 104 ∷ 114 ∷ 101 ∷ 97 ∷ 100 ∷ 101 ∷ 100 ∷ []

abbrev thread_name : Bytes
thread_name = 112 ∷ 104 ∷ 116 ∷ 92 ∷ 84 ∷ 104 ∷ 114 ∷ 101 ∷ 97 ∷ 100 ∷ []

abbrev queue_name : Bytes
queue_name = 112 ∷ 104 ∷ 116 ∷ 92 ∷ 81 ∷ 117 ∷ 101 ∷ 117 ∷ 101 ∷ []

abbrev hash_table_name : Bytes
hash_table_name = 112 ∷ 104 ∷ 116 ∷ 92 ∷ 72 ∷ 97 ∷ 115 ∷ 104 ∷ 84 ∷ 97 ∷ 98 ∷ 108 ∷ 101 ∷ []

abbrev vector_name : Bytes
vector_name = 112 ∷ 104 ∷ 116 ∷ 92 ∷ 86 ∷ 101 ∷ 99 ∷ 116 ∷ 111 ∷ 114 ∷ []

abbrev atomic_integer_name : Bytes
atomic_integer_name =
    112 ∷ 104 ∷ 116 ∷ 92 ∷ 65 ∷ 116 ∷ 111 ∷ 109 ∷ 105 ∷ 99 ∷ 73 ∷ 110 ∷ 116 ∷ 101 ∷ 103 ∷ 101 ∷ 114
    ∷ []

unfoldable pub threaded_interface_gets_implemented : ClassEntry → Bool
threaded_interface_gets_implemented implementor = implementor.internal

-- zend_class_implements and what PHP does for a class with `implements`: `none` where the interface
-- refuses the class.
unfoldable pub implement : ClassEntry → ClassEntry → Option ClassEntry
unfolding threaded_interface_gets_implemented
implement interface ce =
    let done = some (record ce { interfaces = ce.interfaces ++ (interface.name ∷ []) }) in
    if interface.guarded
    then (if threaded_interface_gets_implemented ce then done else none)
    else done

-- A class or interface as the engine enters it, before its members are set.
abbrev entry : Bytes → ClassEntry
entry name = record {
  name = name;
  internal = true;
  is_interface = false;
  final = false;
  serializes = true;
  create_object = none;
  interfaces = [];
  guarded = false;
  handlers = [];
}

abbrev register : ClassEntry → Registry → Registry
register ce r = record r { class_table = r.class_table ++ (ce ∷ []) }

unfoldable pub threaded_ce_init : Registry → Registry
threaded_ce_init r =
    let ce = record (entry threaded_name) { is_interface = true; guarded = true } in
    record (register ce r) { threaded_ce = some ce }

unfoldable pub runnable_ce_init : Registry → Registry
runnable_ce_init r =
    let ce = record (entry runnable_name) { is_interface = true } in
    record (register ce r) { runnable_ce = some ce }

unfoldable pub thread_ce_init : Registry → Registry
thread_ce_init r =
    register
      (record (entry thread_name) {
        serializes = false;
        create_object = some thread_creator;
        handlers = free_obj ∷ [];
      })
      r

-- What the four data structures do alike: `fault` where Threaded_ce is still NULL, or where the
-- interface refuses the class, which ends PHP.
unfoldable pub structure_ce_init : Bytes → Creator → List Handler → Registry → Run Registry
unfolding implement
structure_ce_init name creator handlers r =
    let ce = record (entry name) {
      serializes = false;
      final = true;
      create_object = some creator;
      handlers = handlers;
    } in
    deref r.threaded_ce >>= λ threaded.
    on_value (implement threaded ce) fault λ ce'. ok (register ce' r)

unfoldable pub queue_ce_init : Registry → Run Registry
unfolding structure_ce_init
queue_ce_init r =
    structure_ce_init queue_name queue_creator
      (dtor_obj ∷ free_obj ∷ read_property ∷ write_property ∷ get_properties ∷ []) r

unfoldable pub hashtable_ce_init : Registry → Run Registry
unfolding structure_ce_init
hashtable_ce_init r =
    structure_ce_init hash_table_name hash_table_creator
      (dtor_obj ∷ free_obj ∷ read_property ∷ write_property ∷ read_dimension ∷ write_dimension
        ∷ get_debug_info ∷ get_properties ∷ has_dimension ∷ unset_dimension ∷ [])
      r

unfoldable pub vector_ce_init : Registry → Run Registry
unfolding structure_ce_init
vector_ce_init r =
    structure_ce_init vector_name vector_creator
      (dtor_obj ∷ free_obj ∷ read_property ∷ write_property ∷ read_dimension ∷ write_dimension
        ∷ has_dimension ∷ unset_dimension ∷ get_properties ∷ [])
      r

unfoldable pub atomic_integer_ce_init : Registry → Run Registry
unfolding structure_ce_init
atomic_integer_ce_init r =
    structure_ce_init atomic_integer_name atomic_integer_creator
      (dtor_obj ∷ free_obj ∷ get_properties ∷ []) r

-- The calls at the start of PHP_MINIT_FUNCTION, in their order.
unfoldable pub register_classes : Registry → Run Registry
unfolding threaded_ce_init runnable_ce_init thread_ce_init queue_ce_init hashtable_ce_init
    vector_ce_init atomic_integer_ce_init
register_classes r = do
  r4 ← queue_ce_init (thread_ce_init (runnable_ce_init (threaded_ce_init r)))
  r5 ← hashtable_ce_init r4
  r6 ← vector_ce_init r5
  atomic_integer_ce_init r6

-- Threaded is there, and takes the classes that the engine's extensions have made, no others.
abbrev pub Guards : Registry → Type 0
Guards r =
    (t : ClassEntry) × (r.threaded_ce ≡ some t)
    × ((ce : ClassEntry)
        → implement t ce ≡ (
            if ce.internal
            then some (record ce { interfaces = ce.interfaces ++ (threaded_name ∷ []) })
            else none))

pub register_classes-Guards : (r : Registry) → Returns (register_classes r) Guards
unfolding register_classes implement
register_classes-Guards r = (_, refl, (_, refl, λ ce. refl))
