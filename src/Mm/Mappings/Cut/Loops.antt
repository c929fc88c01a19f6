-- ===== src/Mm/Mappings/Cut/Loops.antt =====
-- crates/mm/src/lib.rs: the loops over the keys, which take each segment out of the map and put its
-- pieces back, do what `cut` does.
use mathlib.Core.List.{append_assoc}
use whuse.Prelude.{
  ℕ, suc, ◌+◌, ◌-◌, ◌<◌, ◌≡◌, refl, ap, ◌∙◌, min, max, Bool, [], ◌∷◌, ◌++◌, Option, none, some,
  arith, ◌||◌, subst, sym,
}
use whuse.Prelude.Words.{usize_mod}
use whuse.Prelude.BTreeMap.{keys, From, From-mono}
use whuse.Prelude.BTreeMap.Middle.{
  Below, Below-append, Below-mono, get-middle, remove-middle, insert-middle, insert-second,
}
use whuse.Mm.{Segment, Mappings}
use whuse.Mm.Mappings.{
  slice_segment, unmap_segment, unmap_key, unmap_keys, protect_segment, protect_key, protect_keys,
}
use whuse.Mm.Mappings.Layout.{Laid, Laid-From, Laid-mono}
use whuse.Mm.Mappings.Cut.{pieces, cut}

module _ (start end : ℕ) (s : Segment) (before after : Mappings) (h : start < end)
    (size : 0 < s.area.len) (fits : s.area.start + s.area.len < usize_mod)
    (below : Below s.area.start before) (above : Laid (s.area.start + s.area.len) after) where
  From-after : (k : ℕ) → k < s.area.start + s.area.len → From (suc k) after
  From-after k lt = From-mono (suc k) (s.area.start + s.area.len) after lt (Laid-From _ after above)

  unmap_segment-pieces :
      (unmap_segment start end s (before ++ after)).0 ≡ before ++ (pieces none start end s ++ after)
  unfolding unmap_segment pieces slice_segment
  unmap_segment-pieces = ground (
    arith,
    insert-middle s.area.start s before after below (From-after s.area.start (omega arith)),
    insert-middle s.area.start (slice_segment s s.area.start (start - s.area.start) s.area.prot)
        before after below (From-after s.area.start (omega arith)),
    insert-middle end (slice_segment s end (s.area.start + s.area.len - end) s.area.prot) before
        after,
    insert-second end (slice_segment s end (s.area.start + s.area.len - end) s.area.prot) before
        ((s.area.start, slice_segment s s.area.start (start - s.area.start) s.area.prot) ∷ [])
        after,
    Below-mono s.area.start end before,
    From-after end,
  )

  abbrev left_piece : Segment
  left_piece = slice_segment s s.area.start (start - s.area.start) s.area.prot

  abbrev mid_at : ℕ
  mid_at = max s.area.start start

  abbrev mid_piece : ℕ → Segment
  mid_piece p = slice_segment s mid_at (min (s.area.start + s.area.len) end - mid_at) p

  abbrev right_piece : Segment
  right_piece = slice_segment s end (s.area.start + s.area.len - end) s.area.prot

  protect_segment-pieces :
      (p : ℕ)
      → protect_segment start end p s (before ++ after)
        ≡ before ++ (pieces (some p) start end s ++ after)
  unfolding protect_segment pieces slice_segment
  protect_segment-pieces p = ground (
    arith,
    insert-middle s.area.start s before after below (From-after s.area.start (omega arith)),
    insert-middle s.area.start left_piece before after below
        (From-after s.area.start (omega arith)),
    insert-middle mid_at (mid_piece p) before after,
    insert-second mid_at (mid_piece p) before ((s.area.start, left_piece) ∷ []) after,
    insert-second end right_piece before ((mid_at, mid_piece p) ∷ []) after,
    insert-second end right_piece before ((s.area.start, left_piece) ∷ (mid_at, mid_piece p) ∷ [])
        after,
    Below-mono s.area.start end before,
    Below-mono s.area.start mid_at before,
    From-after end,
    From-after mid_at,
  )

  unmap_key-pieces :
      (unmap_key start end s.area.start (before ++ (s.area.start, s) ∷ after)).0
      ≡ before ++ (pieces none start end s ++ after)
  unfolding unmap_key
  unmap_key-pieces =
      rw
        (
          get-middle s.area.start s before after below,
          unmap_key,
          remove-middle s.area.start s before after below (From-after s.area.start (omega arith)),
        )
        unmap_segment-pieces

  protect_key-pieces :
      (p : ℕ)
      → protect_key start end p s.area.start (before ++ (s.area.start, s) ∷ after)
        ≡ before ++ (pieces (some p) start end s ++ after)
  unfolding protect_key
  protect_key-pieces p =
      rw
        (
          get-middle s.area.start s before after below,
          protect_key,
          remove-middle s.area.start s before after below (From-after s.area.start (omega arith)),
        )
        (protect_segment-pieces p)

  Below-pieces :
      (mid : Option ℕ) → Below (s.area.start + s.area.len) (before ++ pieces mid start end s)
  Below-pieces mid =
      Below-append _ before (pieces mid start end s)
        (Below-mono s.area.start (s.area.start + s.area.len) before (omega arith) below)
        (below_pieces mid)
    where
      below_pieces : (mid : Option ℕ) → Below (s.area.start + s.area.len) (pieces mid start end s)
      below_pieces none = unfold pieces in ground arith
      below_pieces (some p) = unfold pieces in ground arith

module _ (start end lo k : ℕ) (s : Segment) (before m : Mappings) (h : start < end)
    (b : Below lo before) (l : Laid lo ((k, s) ∷ m)) where
  Laid-tail : Laid (s.area.start + s.area.len) m
  Laid-tail = Laid-mono (s.area.start + s.area.len) (k + s.area.len) m (omega arith) l.4

  Below-head : Below s.area.start before
  Below-head = Below-mono lo s.area.start before (omega arith) b

  Below-turn :
      (mid : Option ℕ) → Below (s.area.start + s.area.len) (before ++ pieces mid start end s)
  Below-turn = Below-pieces start end s before m h l.2 (omega arith) Below-head Laid-tail

  -- One turn of each loop.
  unmap_turn :
      (unmap_key start end k (before ++ (k, s) ∷ m)).0 ≡ (before ++ pieces none start end s) ++ m
  unmap_turn =
      subst
        (λ j.
          (unmap_key start end j (before ++ (j, s) ∷ m)).0
          ≡ before ++ (pieces none start end s ++ m))
        l.1 (unmap_key-pieces start end s before m h l.2 (omega arith) Below-head Laid-tail)
      ∙ sym (append_assoc before _ m)

  protect_turn :
      (p : ℕ)
      → protect_key start end p k (before ++ (k, s) ∷ m)
        ≡ (before ++ pieces (some p) start end s) ++ m
  protect_turn p =
      subst
        (λ j.
          protect_key start end p j (before ++ (j, s) ∷ m)
          ≡ before ++ (pieces (some p) start end s ++ m))
        l.1 (protect_key-pieces start end s before m h l.2 (omega arith) Below-head Laid-tail p)
      ∙ sym (append_assoc before _ m)

pub unmap_keys-cut :
    (start end lo : ℕ) (before m : Mappings) (changed : Bool)
    → start < end
    → Below lo before
    → Laid lo m
    → (unmap_keys start end (keys m) (before ++ m) changed).0 ≡ before ++ cut none start end m
unfolding unmap_keys cut
unmap_keys-cut start end lo before [] changed h b l = refl
unmap_keys-cut start end lo before ((k, s) ∷ m) changed h b l =
    ap (λ x. (unmap_keys start end (keys m) x later).0) (unmap_turn start end lo k s before m h b l)
    ∙ unmap_keys-cut start end (s.area.start + s.area.len) (before ++ pieces none start end s) m
        later h (Below-turn start end lo k s before m h b l none)
        (Laid-tail start end lo k s before m h b l)
    ∙ append_assoc before _ _
  where
    later : Bool
    later = changed || (unmap_key start end k (before ++ (k, s) ∷ m)).1

pub protect_keys-cut :
    (start end p lo : ℕ) (before m : Mappings)
    → start < end
    → Below lo before
    → Laid lo m
    → protect_keys start end p (keys m) (before ++ m) ≡ before ++ cut (some p) start end m
unfolding protect_keys cut
protect_keys-cut start end p lo before [] h b l = refl
protect_keys-cut start end p lo before ((k, s) ∷ m) h b l =
    ap (protect_keys start end p (keys m)) (protect_turn start end lo k s before m h b l p)
    ∙ protect_keys-cut start end p (s.area.start + s.area.len)
        (before ++ pieces (some p) start end s) m h
        (Below-turn start end lo k s before m h b l (some p))
        (Laid-tail start end lo k s before m h b l)
    ∙ append_assoc before _ _
