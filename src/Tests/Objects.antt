-- ===== src/Tests/Objects.antt =====
-- src/pht_entry.c and src/classes on a heap with three objects. `serialize` writes a number as one byte.
use pht.Common.{
  ℕ, List, ◌≢◌, ◌≡◌, refl, true, [], ◌∷◌, Option, none, some, ok, Returns, arith, ref, replicate,
}
use pht.Common.Int.{pos, negsuc, to_int32}
use pht.PhtString.{Bytes}
use pht.Queue
use pht.Queue.Laws
use pht.Vector
use pht.Vector.Laws as VectorLaws
use pht.Entry
use pht.Entry.{
  mutex_of, contents, remove_object, Entry, Zval, Zend, Heap, Object, Shared, SharedInteger,
  object_at, put_object, set_count, increment, refcount_of, retain, stored, delete_entries,
  entry_delete, convert_zval_to_entry, convert_entry_to_zval,
}
use pht.Entry.Deletion.{delete_each, entry_delete-plain}
use pht.Entry.Counting.{entry_delete-reference}
use pht.Entry.Conversion.{convert-convert, retain-held, retained}
use pht.Classes.{returned}
use pht.Classes.QueueObject
use pht.Classes.QueueObject.Order
use pht.Classes.IntegerObject
use pht.Classes.IntegerObject.Counting.{Counts, inc-dec}
use pht.Classes.VectorSizing
use pht.Classes.VectorSizing.Filling

abbrev unserialize : Bytes → Option ℕ
unserialize [] = none
unserialize (b ∷ bs) = some b

abbrev zend : Zend ℕ ℕ
zend = record {
  serialize = λ a. some (a ∷ []);
  unserialize = unserialize;
  copy_user_function = λ f. f;
  is_true = λ z. true;
}

restores : (a : ℕ) (bytes : Bytes) → zend.serialize a ≡ some bytes → zend.unserialize bytes ≡ some a
restores a bytes e = let same : a ∷ [] ≡ bytes = cc in rw (← same)

abbrev cells : Queue.Cells (Entry ℕ)
cells a = none

-- A queue at 100, a vector at 200, and an integer at 300; thread 1 holds the mutex of the vector.
abbrev queue : Shared (Queue.Queue (Entry ℕ))
queue = record { content = Queue.init cells; lock = none; refcount = 1; vn = 0 }

abbrev vector : Shared (Vector.Vector (Entry ℕ))
vector = record { content = Vector.init 0; lock = some (1, 0); refcount = 1; vn = 0 }

abbrev integer : SharedInteger
integer = record { value = negsuc 0; lock = none; refcount = 1 }

abbrev heap : Heap ℕ
heap =
    (100, Object.queue queue)
    ∷ (200, Object.vector vector)
    ∷ (300, Object.atomic_integer integer)
    ∷ []

queue-at : object_at 100 heap ≡ some (Object.queue queue)
unfolding object_at
queue-at = refl

vector-at : object_at 200 heap ≡ some (Object.vector vector)
unfolding object_at
vector-at = refl

integer-at : object_at 300 heap ≡ some (Object.atomic_integer integer)
unfolding object_at
integer-at = refl

-- A queue to which two entries refer.
abbrev shared_heap : Heap ℕ
shared_heap = (100, Object.queue (record queue { refcount = 2 })) ∷ []

shared_queue-at : object_at 100 shared_heap ≡ some (Object.queue (record queue { refcount = 2 }))
unfolding object_at
shared_queue-at = refl

shared_queue-free : mutex_of (Object.queue (record queue { refcount = 2 })) ≡ none
unfolding mutex_of
shared_queue-free = refl

shared_queue-counts : refcount_of (Object.queue (record queue { refcount = 2 })) ≡ 2
unfolding refcount_of
shared_queue-counts = refl

-- The references besides the one that is given up.
abbrev other_references : ℕ
other_references = 1

entry_delete-reference_example :
    (other_references ≢ 0
      → Returns (entry_delete 1 (Entry.queue 100) shared_heap) λ h'.
        (object_at 100 h' ≡ some (set_count none 1 (Object.queue (record queue { refcount = 2 }))))
        × ((b : ℕ) → b ≢ 100 → object_at b h' ≡ object_at b shared_heap))
    × (other_references ≡ 0
        → (es : List (Entry ℕ)) → contents (Object.queue (record queue { refcount = 2 })) ≡ ok es
        → entry_delete 1 (Entry.queue 100) shared_heap
          ≡ delete_each 1 es (remove_object 100 shared_heap))
entry_delete-reference_example =
    entry_delete-reference 1 100 other_references (Entry.queue 100) shared_heap
      (Object.queue (record queue { refcount = 2 })) refl shared_queue-at shared_queue-free
      shared_queue-counts (omega arith)

converts : convert_zval_to_entry zend 1 (Zval.array 5) heap ≡ ok (some (Entry.array (5 ∷ [])), heap)
unfolding convert_zval_to_entry
converts = refl

convert-convert_example :
    Returns (convert_entry_to_zval zend 1 (Entry.array (5 ∷ [])) heap) (λ p. p.0 ≡ Zval.array 5)
convert-convert_example =
    convert-convert zend 1 restores (Zval.array 5) heap heap (Entry.array (5 ∷ [])) converts

abbrev vector_object : Object ℕ
vector_object = Object.vector vector

vector-held : Entry.mutex_of vector_object ≡ some (1, 0)
unfolding Entry.mutex_of
vector-held = refl

retain-held_example :
    retain 1 200 heap
    ≡ ok (
        put_object 200
          (set_count
            (retained 1 vector_object)
            (increment (refcount_of vector_object))
            vector_object)
          heap)
retain-held_example = retain-held 1 200 vector_object heap vector-at vector-held

creates_long :
    (k : Heap ℕ)
    → Entry.create_entry_from_zval zend 1 (Zval.long (pos 0)) k ≡ ok (some (Entry.long (pos 0)), k)
unfolding Entry.create_entry_from_zval to_int32
creates_long k = refl

creates_null :
    (k : Heap ℕ) → Entry.create_entry_from_zval zend 1 Zval.null k ≡ ok (some Entry.null, k)
unfolding Entry.create_entry_from_zval
creates_null k = refl

-- The same queue with the entry of `null` in a node at 10.
abbrev node : Queue.Cells (Entry ℕ)
node = Queue.write cells 10 (some (record { element = Entry.null; next = 0 }))

abbrev one : Shared (Queue.Queue (Entry ℕ))
one = record {
  content = record { cells = node; elements = 10; last = 10; size = 1 };
  lock = none;
  refcount = 1;
  vn = 1;
}

abbrev heap_one : Heap ℕ
heap_one = (100, Object.queue one) ∷ []

one-at : object_at 100 heap_one ≡ some (Object.queue one)
unfolding object_at
one-at = refl

one-Lists : Laws.Lists one.content (Entry.null ∷ [])
one-Lists = (
  (10, Entry.null) ∷ [],
  record {
    linked = ((λ e. omega (arith, e)), refl, refl, tt);
    elements = refl;
    last = refl;
    size = refl;
  },
  refl,
)

converts_null : (k : Heap ℕ) → convert_entry_to_zval zend 1 Entry.null k ≡ ok (Zval.null, k)
unfolding convert_entry_to_zval
converts_null k = refl

deletes_null : (k : Heap ℕ) → entry_delete 1 Entry.null k ≡ ok k
unfolding Entry.entry_delete_value
deletes_null k = entry_delete-plain 1 Entry.null k refl

pop-Stores_example :
    (QueueObject.front zend 1 100 heap_one ≡ ok (returned Zval.null, heap_one))
    × Returns
        (QueueObject.pop zend 1 100 heap_one)
        (λ r. (r.0 ≡ returned Zval.null) × Order.Stores 100 r.1 [] 2)
pop-Stores_example =
    Order.pop-Stores zend 1 100 Entry.null Zval.null [] heap_one one converts_null deletes_null
      one-at one-Lists

integer-Counts : Counts 300 heap (negsuc 0) none
integer-Counts = (integer, integer-at, refl, refl)

inc-dec_example : Returns (IntegerObject.inc 1 300 heap) (λ r.
    (r.0 ≡ returned tt)
    × Counts 300 r.1 (pos 0) none
    × Returns
        (IntegerObject.dec 1 300 r.1)
        (λ t. (t.0 ≡ returned tt) × Counts 300 t.1 (negsuc 0) none))
inc-dec_example = inc-dec 1 300 heap (negsuc 0) none integer-Counts tt (omega arith) (λ e. cc)

vector-Stores : Filling.Stores 200 heap [] 0
vector-Stores = (vector, vector-at, VectorLaws.init-Models 0, refl)

construct-Stores_example :
    Returns
      (VectorSizing.construct zend 1 200 true (pos 3) none heap)
      (λ r. (r.0 ≡ returned tt) × Filling.Stores 200 r.1 (replicate 3 (ref (Entry.long (pos 0)))) 1)
construct-Stores_example =
    Filling.construct-Stores zend 1 200 3 none (Entry.long (pos 0)) heap [] 0 creates_long
      (omega arith) vector-Stores
