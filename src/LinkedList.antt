-- ===== src/LinkedList.antt =====
-- include/thingset++/internal/IntrusiveLinkedList.hpp. An object is named by the address of its
-- `IntrusiveLinkedListNode`, so the pointer arithmetic of `operator*` is the identity, and the
-- `next` members of all objects are one map, `Links`, that every list over that member shares.
-- A walk along `next` takes fuel; `none` is a walk that has not come to the null pointer.
pub mod Segment
pub mod Push
pub mod Remove
pub mod Walk
mod Examples
use thingsetplusplus.Prelude.{
  ℕ, zero, suc, ◌+◌, Bool, true, false, List, [], ◌∷◌, Option, none, some, ◌==◌, if◌then◌else◌,
}
use mathlib.Core.Option

abbrev pub Ptr : Type 0
Ptr = ℕ

abbrev pub null : Ptr
null = 0

-- The member `next` of each node.
abbrev pub Links : Type 0
Links = Ptr → Ptr

-- `p->next = q`
unfoldable pub set_next : Ptr → Ptr → Links → Links
set_next p q next a = if a == p then q else next a

pub record LinkedList : Type 0 where
  pub head : Ptr
  pub tail : Ptr

-- A list object together with the nodes that it links.
abbrev pub State : Type 0
State = LinkedList × Links

abbrev pub empty : LinkedList
empty = record { head = null; tail = null }

-- An iterator holds a node; `begin` starts at the head and `end` is the null pointer.
unfoldable pub begin : LinkedList → Ptr
begin l = l.head

abbrev pub end : Ptr
end = null

-- `operator++`
unfoldable pub advance : Links → Ptr → Ptr
advance next node = next node

-- The objects that a range-based `for` visits from an iterator on.
unfoldable pub visit : ℕ → Links → Ptr → Option (List Ptr)
unfolding advance
visit zero next node = none
visit (suc fuel) next node =
    let rest = Option.map (◌∷◌ node) (visit fuel next (advance next node)) in
    if node == end then some [] else rest

count_loop : ℕ → Links → Ptr → ℕ → Option ℕ
unfolding advance
count_loop zero next node count = none
count_loop (suc fuel) next node count =
    let rest = count_loop fuel next (advance next node) (count + 1) in
    if node == end then some count else rest

unfoldable pub count : ℕ → State → Option ℕ
unfolding count_loop begin
count fuel (l, next) = count_loop fuel next (begin l) 0

unfoldable pub push_back : Ptr → State → State
push_back node (l, next) =
    if next node == null
    then (if l.tail == null
        then (record { head = node; tail = node }, next)
        else (record l { tail = node }, set_next l.tail node next))
    else (l, next)

-- What `remove` does once `test` is the node sought: `prev` is null at the head.
unfoldable pub unlink : Ptr → Ptr → State → State
unfolding set_next
unlink node prev (l, next) =
    if prev == null
    then (let head = next node in
        (
          record { head = head; tail = if l.tail == node then head else l.tail },
          set_next node null next,
        ))
    else (
      record l { tail = if l.tail == node then prev else l.tail },
      set_next node null (set_next prev (next node) next),
    )

remove_loop : ℕ → Ptr → Ptr → Ptr → State → Option (Bool × State)
unfolding unlink
remove_loop zero node prev test s = none
remove_loop (suc fuel) node prev test (l, next) =
    let rest = remove_loop fuel node test (next test) (l, next) in
    if test == null
    then some (false, (l, next))
    else if test == node
    then some (true, unlink node prev (l, next))
    else rest

unfoldable pub remove : ℕ → Ptr → State → Option (Bool × State)
unfolding remove_loop
remove fuel node (l, next) = remove_loop fuel node null l.head (l, next)
