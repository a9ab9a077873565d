-- ===== src/Slab/Links.antt =====
-- The doubly linked list of slab-alloc/src/util.rs with its pointers: `LinkedList` and the links in
-- the headers of its elements. The null pointer is 0. Debug assertions are off.
pub mod Segments
pub mod Refine
pub mod Moves
pub mod Run
mod Tests
use allocators_rs.Base.{ℕ, ◌+◌, ◌-◌, Bool, ◌||◌, ◌==◌, if◌then◌else◌}

-- `Linkable`, for the element at every address.
pub record Links : Type 0 where
  pub next : ℕ → ℕ
  pub prev : ℕ → ℕ

pub record LinkedList : Type 0 where
  pub size : ℕ
  pub head : ℕ
  pub tail : ℕ

abbrev pub Linked : Type 0
Linked = Links × LinkedList

unfoldable pub set_next : ℕ → ℕ → Links → Links
set_next x ptr h = record h { next = λ y. if y == x then ptr else h.next y }

unfoldable pub set_prev : ℕ → ℕ → Links → Links
set_prev x ptr h = record h { prev = λ y. if y == x then ptr else h.prev y }

unfoldable pub new : LinkedList
new = record { size = 0; head = 0; tail = 0 }

unfoldable pub insert_front : ℕ → Linked → Linked
insert_front t (h, l) =
    if l.size == 0 then (h, record { size = l.size + 1; head = t; tail = t }) else (
      set_prev l.head t (set_next t l.head h),
      record { size = l.size + 1; head = t; tail = l.tail },
    )

unfoldable pub insert_back : ℕ → Linked → Linked
insert_back t (h, l) =
    if l.size == 0 then (h, record { size = l.size + 1; head = t; tail = t }) else (
      set_prev t l.tail (set_next l.tail t h),
      record { size = l.size + 1; head = l.head; tail = t },
    )

-- The element removed, and the list.
unfoldable pub remove_front : Linked → ℕ × Linked
remove_front (h, l) =
    if l.size == 1 then (l.head, (h, record { size = l.size - 1; head = 0; tail = 0 })) else (
      l.head,
      (
        set_next l.head 0 (set_prev (h.next l.head) 0 h),
        record { size = l.size - 1; head = h.next l.head; tail = l.tail },
      ),
    )

unfoldable pub remove_back : Linked → ℕ × Linked
remove_back (h, l) =
    if l.size == 1 then (l.head, (h, record { size = l.size - 1; head = 0; tail = 0 })) else (
      l.tail,
      (
        set_prev l.tail 0 (set_next (h.prev l.tail) 0 h),
        record { size = l.size - 1; head = l.head; tail = h.prev l.tail },
      ),
    )

-- Removal from its place: the links, and the head.
unfoldable pub unlink : ℕ → Linked → Links × ℕ
unlink t (h, l) =
    if l.head == t
    then (set_prev (h.next t) 0 h, h.next t)
    else (set_prev (h.next t) (h.prev t) (set_next (h.prev t) (h.next t) h), l.head)

unfoldable pub attach : ℕ → ℕ → Links → Links
attach t tail h = set_next tail t (set_next t 0 (set_prev t tail h))

unfoldable pub move_to_back : ℕ → Linked → Linked
move_to_back t (h, l) = if l.size == 1 || l.tail == t then (h, l) else (
  attach t l.tail (unlink t (h, l)).0,
  record { size = l.size; head = (unlink t (h, l)).1; tail = t },
)
