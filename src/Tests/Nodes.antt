-- ===== src/Tests/Nodes.antt =====
-- The linked list of src/emq.c at three nodes with subscriptions to queues.
use libemq.LinkedList.{
  Ptr, Node, node, Heap, LinkedList, add_node, delete_node, delete_all, release,
}
use libemq.LinkedList.Linked.{Cells, values, IsList}
use libemq.LinkedList.Runs.{Returns}
use libemq.LinkedList.Insert.{Added, add_node-IsList}
use libemq.LinkedList.Delete.{Deleted, delete_node-Deleted}
use libemq.LinkedList.Removal.{Removed, delete_all-Removed}
use libemq.LinkedList.Release.{Freed, release-Freed}
use libemq.Base.{refl, [], ◌∷◌}
use libemq.Subscription.{strcmp_eq, text_bytes}
use libemq.Subscription.Names.{Named}
use libemq.Wire.{fill_chars, read_text}
use libemq.Client.{QueueSubscription}
use libemq.Tests.{jobs, x1}
use libemq.Base.{◌∷◌, true, [], Option, arith, if◌then◌else◌, ◌==◌, some, none}

abbrev to_jobs : QueueSubscription
to_jobs = record { name = fill_chars 64 jobs; callback = 1 }

abbrev to_x1 : QueueSubscription
to_x1 = record { name = fill_chars 64 x1; callback = 2 }

abbrev nodes : Ptr → Option (Node QueueSubscription)
nodes a =
    if a == 8
    then some (node 0 16 to_jobs)
    else if a == 16
    then some (node 8 24 to_x1)
    else if a == 24
    then some (node 16 0 to_jobs)
    else none

abbrev heap : Heap QueueSubscription
heap = record { cell = nodes; released = [] }

abbrev list : LinkedList
list = record { head = 8; tail = 24; count = 3; frees = true }

abbrev cells : Cells QueueSubscription
cells = (8, to_jobs) ∷ (16, to_x1) ∷ (24, to_jobs) ∷ []

heap-IsList : IsList heap list cells
heap-IsList = record {
  linked = (refl, (refl, (refl, tt)));
  distinct = (refl, refl, (refl, refl, (refl, refl, tt)));
  head = refl;
  tail = refl;
  count = refl;
  small = omega arith;
}

cells-Named : Named (λ (x : QueueSubscription). x.name) (values cells)
unfolding fill_chars read_text
cells-Named = omega arith

add_node-IsList_example : Returns (Added heap 32 to_x1 cells) (add_node 32 list to_x1 heap)
add_node-IsList_example =
    add_node-IsList heap list cells 32 to_x1 heap-IsList (omega arith) refl refl

delete_node-Deleted_example :
    Returns
      (Deleted heap list ((8, to_jobs) ∷ []) 16 to_x1 ((24, to_jobs) ∷ []))
      (delete_node list 16 heap)
delete_node-Deleted_example =
    delete_node-Deleted heap list ((8, to_jobs) ∷ []) 16 to_x1 ((24, to_jobs) ∷ []) heap-IsList

delete_all-Removed_example :
    Returns
      (Removed (λ (x : QueueSubscription). x.name) jobs heap list cells)
      (delete_all (λ (v : QueueSubscription). strcmp_eq v.name (text_bytes jobs)) list heap)
delete_all-Removed_example =
    delete_all-Removed (λ (x : QueueSubscription). x.name) jobs heap list cells (omega arith)
      cells-Named heap-IsList

release-Freed_example : Returns (Freed heap true cells) (release list heap)
release-Freed_example = release-Freed heap list cells heap-IsList
