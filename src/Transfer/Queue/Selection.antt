-- ===== src/Transfer/Queue/Selection.antt =====
-- Which uploads `_get_queued_transfers` of transfer/manager.py finds.
use aioslsk.Base.{min, ◌+◌, ◌≡◌, ap, sym, ◌∙◌, arith, max, length}
use aioslsk.Base.{Bool, true, false, not, ◌&&◌, ◌||◌, any, if◌then◌else◌, inl, inr, Bool-cases}
use aioslsk.Base.{List, [], ◌∷◌}
use native.Mathlib.Nat.{zero-add}
use aioslsk.Transfer.Model.{Str, Transfer, is_upload}
use aioslsk.Base.{same, elem, same→eq}
use aioslsk.Transfer.Queue.{
  Settings, offline?, queued?, usernames, get_uploading, adds_upload, queued_from,
  get_queued_transfers, manage_transfers, get_free_upload_slots,
}
use aioslsk.Transfer.Queue.Slots.{holds_slot, length-get_uploading, length-take-min}
use aioslsk.Transfer.Queue.Count.{count, count-prioritize_uploads}

-- One step of the loop, with the tests on an upload as Booleans: whether it is added, waits, and is
-- of the user, and whether that user and the upload's were seen before.
one_more :
    (added waiting user seen seen' later : Bool)
    → added ≡ (waiting && not seen')
    → (user ≡ true → seen' ≡ seen)
    → (if added then (if user then 1 else 0) else 0)
        + (if not (if added then user || seen else seen) && later then 1 else 0)
      ≡ (if not seen && (waiting && user || later) then 1 else 0)
one_more added waiting user seen seen' later h k = ground arith

seen_same :
    (name : Str) (seen : List Str) (t : Transfer)
    → same name t.username ≡ true
    → elem t.username seen ≡ elem name seen
seen_same name seen t h = ap (λ (l : Str). elem l seen) (sym (same→eq name t.username h))

module _ (settings : Settings) where
  -- A queued upload to a user who is neither offline nor one of those with an upload under way.
  abbrev pub waits : List Str → Transfer → Bool
  waits uploading t =
      is_upload t
      && (queued? t.state
          && (not (offline? (settings.get_user_object t.username).status)
              && not (elem t.username uploading)))

  abbrev pub waits_for : List Str → Str → Transfer → Bool
  waits_for uploading name t = waits uploading t && same name t.username

  adds_waits :
      (uploading seen : List Str) (t : Transfer)
      → adds_upload settings uploading seen t ≡ (waits uploading t && not (elem t.username seen))
  adds_waits uploading seen t = ground arith

  -- Each user who was not seen before gets one upload if one waits, and nobody gets two.
  count-queued_from :
      (name : Str) (uploading seen : List Str) (ts : List Transfer)
      → count (λ t. same name t.username) (queued_from settings uploading seen ts).1
        ≡ (if not (elem name seen) && any (waits_for uploading name) ts then 1 else 0)
  unfolding count queued_from
  count-queued_from name uploading seen [] = ground arith
  count-queued_from name uploading seen (t ∷ ts) =
      elim (Bool-cases (adds_upload settings uploading seen t)) [
        | inl e ↦
            rw (e, count-queued_from name uploading (t.username ∷ seen) ts)
              (one_more true (waits uploading t) (same name t.username) (elem name seen)
                (elem t.username seen) (any (waits_for uploading name) ts)
                (sym e ∙ adds_waits uploading seen t) (seen_same name seen t))
        | inr e ↦
            rw (e, count-queued_from name uploading seen ts)
              (sym (zero-add _)
                ∙ one_more false (waits uploading t) (same name t.username) (elem name seen)
                    (elem t.username seen) (any (waits_for uploading name) ts)
                    (sym e ∙ adds_waits uploading seen t) (seen_same name seen t))
      ]

  -- Of the uploads that the manager ranks, each user who is not offline, has no upload under way
  -- and has one queued has exactly one, and any other user none.
  pub count-get_queued_transfers :
      (name : Str) (ts : List Transfer)
      → count (λ t. same name t.username) (get_queued_transfers settings ts).1
        ≡ (if any (waits_for (usernames (get_uploading ts)) name) ts then 1 else 0)
  unfolding get_queued_transfers
  count-get_queued_transfers name ts =
      count-prioritize_uploads (λ t. same name t.username) settings _
      ∙ count-queued_from name (usernames (get_uploading ts)) [] ts

  -- With the uploads that hold a slot already, those that are started fill the slots as far as there
  -- are uploads to start, and no further; more slots are taken only if they were before.
  pub manage_transfers-upload_slots :
      (ts : List Transfer)
      → count holds_slot ts + length (manage_transfers settings ts).1
        ≡ max (count holds_slot ts) (
            min settings.upload_slots
              (count holds_slot ts + length (get_queued_transfers settings ts).1))
  unfolding manage_transfers get_free_upload_slots
  manage_transfers-upload_slots ts = omega (
    arith,
    length-take-min (get_free_upload_slots settings ts) (get_queued_transfers settings ts).1,
    length-get_uploading ts,
  )
