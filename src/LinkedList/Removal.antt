-- ===== src/LinkedList/Removal.antt =====
-- The loops of `emq_queue_unsubscribe`, `emq_channel_unsubscribe` and `emq_channel_punsubscribe` of
-- src/emq.c over nodes, and the removal from a list of values that stands for them in the commands.
use libemq.LinkedList.{Heap, LinkedList, delete_all}
use libemq.LinkedList.Linked.{Cells, values, IsList}
use libemq.LinkedList.Walk.{survivors, hits, delete_all-Swept, Swept, Tested}
use libemq.LinkedList.Runs.{Returns, Returns-weaken}
use libemq.Subscription.{delete_named, strcmp_eq, text_bytes}
use libemq.Subscription.Names.{
  Named, others, same, delete_named-others, strcmp_eq-same, text_bytes-Terminated,
  read_text-text_bytes,
}
use libemq.Base.{if◌then◌else◌, refl, [], ◌∷◌, arith}
use mathlib.Core.List.{reverse_aux}
use libemq.Base.{List, ℕ, ◌≡◌, Bool, [], ◌∷◌, some, arith, ◌∙◌, ap, sym}
use libemq.Wire.{Text, IsText, read_text}

module _ {A : Type 0} (name_of : A → List ℕ) (t : Text) where
  abbrev is_named : A → Bool
  is_named v = same (read_text (name_of v)) t

  values-survivors : (xs : Cells A) → values (survivors is_named xs) ≡ others name_of t (values xs)
  values-survivors [] = refl
  values-survivors ((p, v) ∷ xs) = ground (arith, values-survivors xs)

  strcmp_eq-Tested :
      IsText t
      → (vs : List A) → Named name_of vs
      → Tested (λ v. strcmp_eq (name_of v) (text_bytes t)) is_named vs
  strcmp_eq-Tested text [] named = tt
  strcmp_eq-Tested text (v ∷ vs) (named, nameds) = (
    strcmp_eq-same (name_of v) (text_bytes t) named (text_bytes-Terminated t text)
        ∙ ap (λ (b : Text). some (same (read_text (name_of v)) b)) (read_text-text_bytes t text),
    strcmp_eq-Tested text vs nameds,
  )

  -- The nodes of the list hold what `delete_named` leaves of the values, and the values that are
  -- gone have been given to the `free` method, if there is one.
  pub record Removed (h : Heap A) (l : LinkedList) (xs : Cells A) (l' : LinkedList) (g : Heap A)
      : Type 0 where
    pub rest : Cells A
    pub list : IsList g l' rest
    pub left : delete_named name_of (text_bytes t) (values xs) ≡ some (values rest)
    pub frees : l'.frees ≡ l.frees
    pub released :
        g.released
        ≡ (if l.frees then reverse_aux (hits is_named (values xs)) h.released else h.released)

  -- The loop that unsubscribes from the name `t` returns, without a fault, when all names in the
  -- list have their NUL; what it leaves in the nodes is what `delete_named` leaves of their values.
  -- The values with that name have been given to the `free` method, if one is set, each once and
  -- in order.
  pub delete_all-Removed :
      (h : Heap A) (l : LinkedList) (xs : Cells A)
      → IsText t
      → Named name_of (values xs)
      → IsList h l xs
      → Returns (Removed h l xs) (delete_all (λ v. strcmp_eq (name_of v) (text_bytes t)) l h)
  delete_all-Removed h l xs text named is =
      Returns-weaken (Swept is_named h l [] xs) (Removed h l xs) _
        (delete_all-Swept (λ v. strcmp_eq (name_of v) (text_bytes t)) is_named h l xs is
          (strcmp_eq-Tested text (values xs) named))
        (λ l' g swept. record {
          rest = survivors is_named xs;
          list = swept.list;
          left =
              delete_named-others name_of t (values xs) text named
              ∙ ap some (sym (values-survivors xs));
          frees = swept.frees;
          released = swept.released;
        })
