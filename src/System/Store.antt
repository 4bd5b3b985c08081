-- ===== src/System/Store.antt =====
-- What the API server is relied on to do with a restore and its source, and the cluster that a list of
-- writes leads to.
use sqlite_operator.Base.{
  ◌≡◌, ◌⊎◌, or_default, ap, sym, ◌∙◌, refl, Bool, true, false, ◌&&◌, none, List, [], ◌∷◌, arith,
  inl, inr,
}
use sqlite_operator.Base.Dict.{Dict}
use sqlite_operator.Kube.Objects.{NamespacedName}
use sqlite_operator.Kube.Errors.{Result, ok, err}
use sqlite_operator.Kube.Client.{Client, Write, patch_restore_status, patch_replica}
use sqlite_operator.Api.Replica.{LitestreamReplica, annotation_pause}
use sqlite_operator.Api.Restore.{LitestreamRestore}
use sqlite_operator.Restore.Annotations.{has_annotation}
use sqlite_operator.Restore.Reconcile.{source_key}
use sqlite_operator.Restore.Trace.{written_phase}
use sqlite_operator.System.Replay.{
  AllAccepted, replay, bases, is_status_patch, leaves_pause, all_harmless,
}

abbrev pub all_leave : List Write → Bool
all_leave [] = true
all_leave (x ∷ xs) = leaves_pause x && all_leave xs

module _ {S : Type 0} (client : Client S) (restore_key source : NamespacedName) where
  -- The source has the annotation, if it can be read.
  abbrev paused_answer : Result LitestreamReplica → Bool
  paused_answer (ok db) = has_annotation db annotation_pause
  paused_answer (err e) = true

  abbrev pub is_paused : S → Bool
  is_paused c = paused_answer (client.get_replica source c)

  -- A patch that is accepted is merged into the object that is stored, and one of a restore's status
  -- changes the status alone; other writes leave the restore, and the pause, as they are. The restore
  -- keeps its sourceRef.
  pub record IsStore : Type 0 where
    pub same_source :
        (c : S) (r : LitestreamRestore)
        → client.get_restore restore_key c ≡ ok r
        → source_key r ≡ source
    pub stores_status :
        (old new : LitestreamRestore) (c : S)
        → client.get_restore restore_key c ≡ ok old
        → (client.send (patch_restore_status old new) c).0 ≡ none
        → client.get_restore restore_key (client.send (patch_restore_status old new) c).1
          ≡ ok (record old { status = new.status })
    pub keeps_restore :
        (x : Write) (c : S)
        → is_status_patch x ≡ false
        → client.get_restore restore_key (client.send x c).1 ≡ client.get_restore restore_key c
    pub keeps_pause :
        (x : Write) (c : S)
        → leaves_pause x ≡ true
        → is_paused c ≡ true
        → is_paused (client.send x c).1 ≡ true
    pub sets_pause :
        (old new : LitestreamReplica) (c : S)
        → client.get_replica source c ≡ ok old
        → has_annotation new annotation_pause ≡ true
        → (client.send (patch_replica old new) c).0 ≡ none
        → is_paused (client.send (patch_replica old new) c).1 ≡ true

  module _ (lawful : IsStore) (c : S) where
    pub replay-is_paused :
        (xs : List Write)
        → all_leave xs ≡ true
        → is_paused c ≡ true
        → is_paused (replay client xs c) ≡ true
    replay-is_paused [] l p = p
    replay-is_paused (x ∷ xs) l p =
        lawful.keeps_pause x (replay client xs c) (ground arith)
          (replay-is_paused xs (ground arith) p)

    replay-bases_none :
        (r : LitestreamRestore) (xs : List Write)
        → client.get_restore restore_key c ≡ ok r
        → bases xs ≡ []
        → client.get_restore restore_key (replay client xs c) ≡ ok r
    replay-bases_none r [] g b = g
    replay-bases_none r (x ∷ xs) g b =
        lawful.keeps_restore x (replay client xs c) (ground arith)
        ∙ replay-bases_none r xs g (ground arith)

    -- The restore that is stored afterwards, in the phase that was written last.
    pub record Stored (r : LitestreamRestore) (xs : List Write) : Type 0 where
      pub new : LitestreamRestore
      pub stored : client.get_restore restore_key (replay client xs c) ≡ ok new
      pub in_phase : or_default (written_phase xs) r.status.phase ≡ new.status.phase

    bases-written_phase : (xs : List Write) → bases xs ≡ [] → written_phase xs ≡ none
    bases-written_phase [] b = refl
    bases-written_phase (x ∷ xs) b = ground (arith, bases-written_phase xs)

    replay-bases_one :
        (r : LitestreamRestore) (xs : List Write)
        → client.get_restore restore_key c ≡ ok r
        → bases xs ≡ r ∷ []
        → AllAccepted client xs c
        → Stored r xs
    replay-bases_one r [] g b a = cc b
    replay-bases_one r (patch_restore_status old new ∷ xs) g b a =
        let same : old ≡ r = cc b in
        let stored = replay-bases_none r xs g (cc b) in
        record {
          new = record old { status = new.status };
          stored =
              lawful.stores_status old new (replay client xs c) (stored ∙ ap ok (sym same))
                (a.0 refl);
          in_phase = refl;
        }
    replay-bases_one r (x ∷ xs) g b a =
        let rest = replay-bases_one r xs g b a.1 in
        record {
          new = rest.new;
          stored = lawful.keeps_restore x (replay client xs c) refl ∙ rest.stored;
          in_phase = rest.in_phase;
        }

    pub replay-Stored :
        (r : LitestreamRestore) (xs : List Write)
        → client.get_restore restore_key c ≡ ok r
        → (bases xs ≡ []) ⊎ (bases xs ≡ r ∷ [])
        → AllAccepted client xs c
        → Stored r xs
    replay-Stored r xs g (inl b) a = record {
      new = r;
      stored = replay-bases_none r xs g b;
      in_phase = rw (bases-written_phase xs b) refl;
    }
    replay-Stored r xs g (inr b) a = replay-bases_one r xs g b a

    all_harmless-all_leave :
        (fits : NamespacedName → Dict → Bool) (xs : List Write)
        → all_harmless fits xs ≡ true
        → all_leave xs ≡ true
    all_harmless-all_leave fits [] h = refl
    all_harmless-all_leave fits (x ∷ xs) h = ground (arith, all_harmless-all_leave fits xs)

    -- Harmless writes keep the restore and the pause.
    pub replay-keeps_restore :
        (fits : NamespacedName → Dict → Bool) (xs : List Write)
        → all_harmless fits xs ≡ true
        → client.get_restore restore_key (replay client xs c) ≡ client.get_restore restore_key c
    replay-keeps_restore fits [] h = refl
    replay-keeps_restore fits (x ∷ xs) h =
        lawful.keeps_restore x (replay client xs c) (ground arith)
        ∙ replay-keeps_restore fits xs (ground arith)

    pub replay-keeps_pause :
        (fits : NamespacedName → Dict → Bool) (xs : List Write)
        → all_harmless fits xs ≡ true
        → is_paused c ≡ true
        → is_paused (replay client xs c) ≡ true
    replay-keeps_pause fits xs h p = replay-is_paused xs (all_harmless-all_leave fits xs h) p
