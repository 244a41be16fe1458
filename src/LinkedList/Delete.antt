-- ===== src/LinkedList/Delete.antt =====
-- `emq_list_delete_node` of src/emq.c over the heap of nodes.
use libemq.LinkedList.{
  Ptr, null, node, Heap, LinkedList, unlink_prev, unlink_next, release_value, free_node, write,
  delete_node, ◌>>◌, pure,
}
use libemq.LinkedList.Linked.{
  Cells, first, last, Linked, Distinct, IsList, Linked-append, Linked-write, Distinct-append,
  first-append, last-append,
}
use libemq.LinkedList.Relink.{
  free_node-ok, relink_first, relink_last, set_prev-ok, set_next-ok, ne_of_mem, load-ok,
}
use libemq.LinkedList.Insert.{SameOutside}
use libemq.LinkedList.Runs.{Returns, Returns-and_then}
use libemq.Base.{
  if◌then◌else◌, refl, [], ◌∷◌, ◌≡◌, arith, some, ◌++◌, none, ◌+◌, ◌^◌, ◌-◌, ◌%◌, ◌∙◌, sym,
  length-append,
}
use libemq.LinkedList.Around.{IsList-Around, front_kept, back_kept, outside_parts}

module _ {A : Type 0} where
  -- The links of `xs` now lead on to `after`, and the list begins at `head`.
  record Front (h : Heap A) (l : LinkedList) (xs : Cells A) (after : Ptr) (l' : LinkedList)
      (g : Heap A) : Type 0 where
    linked : Linked g.cell null xs after
    head : l'.head ≡ first xs after
    tail : l'.tail ≡ l.tail
    count : l'.count ≡ l.count
    frees : l'.frees ≡ l.frees
    same : SameOutside xs h g
    kept : g.released ≡ h.released

  unlink_prev-Front :
      (h : Heap A) (l : LinkedList) (xs : Cells A) (p after : Ptr) (v : A)
      → Linked h.cell null xs p
      → Distinct xs
      → l.head ≡ first xs p
      → Returns (Front h l xs after) (unlink_prev l (node (last null xs) after v) h)
  unfolding unlink_prev
  unlink_prev-Front h l [] p after v links ds head = record {
    linked = tt;
    head = refl;
    tail = refl;
    count = refl;
    frees = refl;
    same = λ a out. refl;
    kept = refl;
  }
  unlink_prev-Front h l ((a, b) ∷ xs) p after v links ds head =
      let (n, there, inside, nn, links') = relink_last h.cell null a b xs p after ds links in
      rw (nn, set_next-ok h (last a xs) after n nn there)
        (record {
          linked = links';
          head = head;
          tail = refl;
          count = refl;
          frees = refl;
          same = λ q out. rw (ne_of_mem q (last a xs) ((a, b) ∷ xs) out inside) refl;
          kept = refl;
        })

  -- The links of `ys` now lead back to `before`, and the list ends at `tail`.
  record Back (h : Heap A) (l : LinkedList) (before : Ptr) (ys : Cells A) (l' : LinkedList)
      (g : Heap A) : Type 0 where
    linked : Linked g.cell before ys null
    head : l'.head ≡ l.head
    tail : l'.tail ≡ last before ys
    count : l'.count ≡ l.count
    frees : l'.frees ≡ l.frees
    same : SameOutside ys h g
    kept : g.released ≡ h.released

  unlink_next-Back :
      (h : Heap A) (l : LinkedList) (before p : Ptr) (ys : Cells A) (v : A)
      → Linked h.cell p ys null
      → Distinct ys
      → l.tail ≡ last p ys
      → Returns (Back h l before ys) (unlink_next l (node before (first ys null) v) h)
  unfolding unlink_next
  unlink_next-Back h l before p [] v links ds tail = record {
    linked = tt;
    head = refl;
    tail = refl;
    count = refl;
    frees = refl;
    same = λ a out. refl;
    kept = refl;
  }
  unlink_next-Back h l before p ((a, b) ∷ ys) v links ds tail =
      rw (ds.0, set_prev-ok h a before (node p (first ys null) b) ds.0 links.0)
        (record {
          linked = relink_first h.cell p before a b ys null ds links;
          head = refl;
          tail = tail;
          count = refl;
          frees = refl;
          same = λ q out. ground arith;
          kept = refl;
        })

  -- What the function has done when the node `p` with the value `v` stood between `xs` and `ys`.
  pub record Deleted (h : Heap A) (l : LinkedList) (xs : Cells A) (p : Ptr) (v : A) (ys : Cells A)
      (l' : LinkedList) (g : Heap A) : Type 0 where
    pub list : IsList g l' (xs ++ ys)
    pub frees : l'.frees ≡ l.frees
    pub gone : g.cell p ≡ none
    pub same : SameOutside (xs ++ (p, v) ∷ ys) h g
    pub released : g.released ≡ (if l.frees then v ∷ h.released else h.released)

  -- The end of the function: the value is released and the node freed.
  delete_end :
      (h : Heap A) (l : LinkedList) (xs : Cells A) (p : Ptr) (v : A) (ys : Cells A)
      (l' l'' : LinkedList) (h' h'' : Heap A)
      → IsList h l (xs ++ (p, v) ∷ ys)
      → Front h l xs (first ys null) l' h'
      → Back h' l' (last null xs) ys l'' h''
      → Returns (Deleted h l xs p v ys) (
          (release_value l.frees v
              >> (free_node p >> pure (record l'' { count = (l''.count + 2 ^ 64 - 1) % 2 ^ 64 })))
            h'')
  unfolding release_value
  delete_end h l xs p v ys l' l'' h' h'' is front back =
      let at = IsList-Around h l xs p v ys is in
      let n = node (last null xs) (first ys null) v in
      let there : h''.cell p ≡ some n =
        back.same p at.not_back ∙ (front.same p at.not_front ∙ at.here) in
      let released = if l.frees then v ∷ h''.released else h''.released in
      rw (free_node-ok (record h'' { released = released }) p n at.not_null there) (record {
        list = record {
          linked =
              Linked-append (write h''.cell p none) null xs ys null
                (front_kept h'.cell h''.cell xs p ys (first ys null) at.not_front at.apart back.same
                  front.linked)
                (Linked-write h''.cell p none (last null xs) ys null at.not_back back.linked);
          distinct = Distinct-append xs ys at.front_distinct at.back_distinct at.apart;
          head = back.head ∙ (front.head ∙ sym (first-append xs ys null));
          tail = back.tail ∙ sym (last-append null xs ys);
          count = omega (
            arith,
            back.count,
            front.count,
            is.count,
            is.small,
            length-append xs ys,
            length-append xs ((p, v) ∷ ys),
          );
          small = omega (arith, is.small, length-append xs ys, length-append xs ((p, v) ∷ ys));
        };
        frees = back.frees ∙ front.frees;
        gone = ground arith;
        same = λ a out.
            let (out_x, out_p, out_y) = outside_parts xs p v ys a out in
            rw out_p (back.same a out_y ∙ front.same a out_x);
        released = rw (back.kept, front.kept) refl;
      })

  -- `emq_list_delete_node` takes the node out of the list, wherever it stands, with the others in
  -- their order; it gives the value to the `free` method if one is set, frees the node, and changes
  -- no node outside the list.
  pub delete_node-Deleted :
      (h : Heap A) (l : LinkedList) (xs : Cells A) (p : Ptr) (v : A) (ys : Cells A)
      → IsList h l (xs ++ (p, v) ∷ ys)
      → Returns (Deleted h l xs p v ys) (delete_node l p h)
  unfolding delete_node
  delete_node-Deleted h l xs p v ys is =
      let at = IsList-Around h l xs p v ys is in
      let n = node (last null xs) (first ys null) v in
      rw (load-ok h p n at.not_null at.here) (
        Returns-and_then (Front h l xs (first ys null)) (Deleted h l xs p v ys) (unlink_prev l n h)
          _
          (unlink_prev-Front h l xs p (first ys null) v at.front at.front_distinct
            (is.head ∙ first-append xs ((p, v) ∷ ys) null))
          (λ l' h' front.
            let here : h'.cell p ≡ some n = front.same p at.not_front ∙ at.here in
            rw (load-ok h' p n at.not_null here) (
              Returns-and_then (Back h' l' (last null xs) ys) (Deleted h l xs p v ys)
                (unlink_next l' n h') _
                (unlink_next-Back h' l' (last null xs) p ys v
                  (back_kept h.cell h'.cell xs p ys at.apart front.same at.back) at.back_distinct
                  (front.tail ∙ (is.tail ∙ last-append null xs ((p, v) ∷ ys))))
                (λ l'' h'' back. delete_end h l xs p v ys l' l'' h' h'' is front back))))
