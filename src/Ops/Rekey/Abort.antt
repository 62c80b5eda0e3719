-- ===== src/Ops/Rekey/Abort.antt =====
-- internal/ops/rekey.go: what `Rekey` leaves when no trust line was written.
use certhold.Base.{
  ℕ, Text, true, false, ==_iff, Option, List, [], ◌∷◌, map, All, All-filter, All-both, All-sort_by,
  sort_by, Distinct, contains, ◌≡◌, inl, inr, refl, ap, ◌∙◌, arith,
}
use certhold.Errors.{Result, ok, err, IsOk, IsErr}
use certhold.Exec.{Exec, modify}
use certhold.Exec.Keeps.{Keeps, Keeps-bind}
use certhold.Exec.Ends.{Ends, Ends-bind, Ends-then}
use certhold.Db.{Db, Peer}
use certhold.Ops.{World, on_remote}
use certhold.Ops.Outside.{Outside}
use certhold.Peerfiles.AuthorizedKeys.{ParsedKey}
use certhold.Ops.Rekey.Rotate.{Staging, Rotation, Fixed, in_world, rotate_all}
use certhold.Ops.Rekey.Restore.{restored, Holds, restore_lem, map_id}
use certhold.Ops.Rekey.Run.{
  conclude, report_stragglers, rotation, rotate_cleanly, rotation_of, clean_up, restore,
  peers_to_rotate, next_dir,
}
use certhold.Ops.Rekey.Undoable.{
  Undoable, IsRotated, Current, noted, Undoable-remote, IsRotated-in_world,
}
use certhold.Ops.Rekey.Marks.{Ends-rotate_all}
use certhold.Ops.Rekey.Unsent.{KeepsUnsent, Unsent, Unsent-remote, Unsent-rotate_all}

-- The peers of the loop are as their rows, when no two rows have one name.
Holds-other :
    (p : Peer) (ps : List Peer)
    → contains (map (λ q. q.name) ps) p.name ≡ false
    → All (Holds (noted p)) ps
unfolding contains
Holds-other p [] h = tt
Holds-other p (q ∷ ps) h = ground (arith, Holds-other p ps)

other-Holds :
    (p : Peer) (ps : List Peer)
    → contains (map (λ q. q.name) ps) p.name ≡ false
    → All (λ q. Holds (noted q) p) ps
unfolding contains
other-Holds p [] h = tt
other-Holds p (q ∷ ps) h =
    ground (arith, other-Holds p ps, ==_iff q.name p.name, ==_iff p.name q.name)

All-Current :
    (ps : List Peer) → Distinct (map (λ p. p.name) ps) → All (λ p. All (Holds (noted p)) ps) ps
All-Current [] d = tt
All-Current (p ∷ ps) d =
    ((λ h. refl, Holds-other p ps d.0), All-both _ _ ps (other-Holds p ps d.0) (All-Current ps d.1))

peers_to_rotate-Current :
    (db : Db) (hostname : Text) (exclude : List Text)
    → Distinct (map (λ p. p.name) db.peers)
    → All (Current db) (peers_to_rotate hostname exclude (sort_by (λ p. p.name) db.peers))
unfolding peers_to_rotate
peers_to_rotate-Current db hostname exclude d =
    All-filter _ _ _ (All-sort_by (λ p. p.name) (Current db) db.peers (All-Current db.peers d))

restored_none : (p : Peer) → restored [] p ≡ p
unfolding restored
restored_none p = refl

module _ {R : Type 0} (out : Outside R) (staging : Staging R) (parse : Text → Option ParsedKey)
    (now fuel : ℕ) (key hostname : Text) (self : Peer) (pass : Option Text) where
  IsRotated-committed : Keeps (IsRotated {R = R}) (modify λ s. record s { committed = true })
  IsRotated-committed = record { at = λ s h. h }

  IsRotated-report :
      Keeps (IsRotated {R = R}) (λ s. in_world (report_stragglers staging s.stragglers) s)
  IsRotated-report = record { at = λ s h. h }

  IsRotated-conclude : Keeps IsRotated (conclude staging now fuel)
  unfolding conclude
  IsRotated-conclude =
      search (Keeps-bind, IsRotated-in_world, IsRotated-committed, IsRotated-report) depth 9

  -- Both invariants at once: what is stored can be put back, and no peer was written to.
  abbrev Clean : (R → Type 0) → Db → Rotation R → Type 0
  Clean P start s = Undoable start s × Unsent P s

  Clean-remote :
      {A : Type 0} (P : R → Type 0) (start : Db) (m : Exec R A)
      → Keeps P m
      → Keeps (Clean P start) (in_world (on_remote m))
  Clean-remote P start m k = record {
    at = λ s u. ((Undoable-remote start m).at s u.0, (Unsent-remote P m k).at s u.1);
  }

  Clean-rotate_all :
      (P : R → Type 0) (start : Db) (others : List Peer) (fixed : Fixed)
      → KeepsUnsent P out staging
      → All (Current start) others
      → Ends (Clean P start) IsRotated (rotate_all out staging parse fixed others self)
  Clean-rotate_all P start others fixed keeps current =
      let ends = Ends-rotate_all out staging parse fixed start others self current in
      let unsent = Unsent-rotate_all P out staging parse fixed keeps others self in
      record {
        fails = λ s u e. (ends.fails s u.0 e, unsent.at s u.1);
        works = λ s u o. ends.works s u.0 o;
      }

  Ends-rotation :
      (P : R → Type 0) (start : Db) (others : List Peer)
      → KeepsUnsent P out staging
      → All (Current start) others
      → Ends
          (Clean P start)
          IsRotated
          (rotation out staging parse now fuel key hostname others self pass)
  unfolding rotation
  Ends-rotation P start others keeps current =
      Ends-bind (Clean P start) IsRotated _ _
        (Clean-remote P start (staging.generate pass) (keeps.generate pass))
        (λ new_ca.
          Ends-bind (Clean P start) IsRotated _ _
            (Clean-remote P start out.instance_ca_pubs keeps.ca_pubs)
            (λ retired.
              let fixed : Fixed = record {
                key = key;
                hostname = hostname;
                new_ca = new_ca;
                retired = retired;
              } in
              Ends-then (Clean P start) IsRotated (rotate_all out staging parse fixed others self)
                (λ _. conclude staging now fuel)
                (Clean-rotate_all P start others fixed keeps current) (λ _. IsRotated-conclude)
                (λ s r. (inl r, inl r))))

  Ends-Clean :
      (P : R → Type 0) (start : Db) (m : Exec (Rotation R) (Unit {0})) (s : Rotation R)
      → Ends (Clean P start) IsRotated m
      → Clean P start s
      → Clean P start (m s).1 × (IsOk (m s).0 → IsRotated (m s).1)
  Ends-Clean P start m s e u = (settled (m s) (e.fails s u) (e.works s u), e.works s u)
    where
      settled :
          (x : Result (Unit {0}) × Rotation R)
          → (IsErr x.0 → Clean P start x.1)
          → (IsOk x.0 → IsRotated x.1)
          → Clean P start x.1
      settled (ok a, v) f o = (inl (o tt), inl (o tt))
      settled (err e', v) f o = f tt

  unsent_still :
      (P : R → Type 0) (s : Rotation R) → Unsent P s → s.rotated ≡ false → P s.world.remote
  unsent_still P s (inl r) h = absurd (cc)
  unsent_still P s (inr q) h = q

  clean_up_eq :
      (s : Rotation R)
      → s.committed ≡ false
      → s.rotated ≡ false
      → clean_up staging s
        ≡ (on_remote (staging.remove_all next_dir) (restore staging s.prior s.world).1).1
  unfolding clean_up
  clean_up_eq s c h = ground arith

  clean_up_undoes :
      (start : Db) (s : Rotation R)
      → Undoable start s
      → s.rotated ≡ false
      → ((clean_up staging s).db ≡ start)
        × ((clean_up staging s).remote ≡ (staging.remove_all next_dir s.world.remote).1)
  clean_up_undoes start s (inl r) h = absurd (cc)
  clean_up_undoes start s (inr u) h =
      let same = clean_up_eq s u.2 h in
      let back = restore_lem staging s.prior s.world in
      (
        ap (λ (v : World R). v.db) same
            ∙ back.0
            ∙ ap (λ ps. record s.world.db { peers = ps }) u.0
            ∙ u.1,
        ap (λ (v : World R). v.remote) same ∙ ap (λ r. (staging.remove_all next_dir r).1) back.1,
      )

  clean_up_keeps :
      (s : Rotation R)
      → s.rotated ≡ true
      → ((clean_up staging s).db ≡ s.world.db) × ((clean_up staging s).remote ≡ s.world.remote)
  unfolding clean_up
  clean_up_keeps s h = ground arith

  fails_unrotated :
      (x : Result (Unit {0}) × Rotation R)
      → (IsOk x.0 → IsRotated x.1)
      → x.1.rotated ≡ false
      → IsErr x.0
  fails_unrotated (ok a, s) o h = absurd (cc (o tt))
  fails_unrotated (err e, s) o h = tt

  -- The rotation of the peers that are listed, from the generation of the new CA to the return, when
  -- no two peers have one name. If it ends unmarked, it fails, no write of a file on another peer was
  -- issued (whatever the other calls keep holds still), every certificate that was stored is put back,
  -- so the database is as it was, and the staged CA is removed. If it ends marked, the clean-up changes
  -- neither the database nor anything outside: the staged CA stays. The manager's own files are not
  -- counted: an unmarked rotation may have written them.
  pub rotate_cleanly_undoes :
      (exclude : List Text) (w : World R) (P : R → Type 0)
      → Distinct (map (λ p. p.name) w.db.peers)
      → KeepsUnsent P out staging
      → P w.remote
      → let others = peers_to_rotate hostname exclude (sort_by (λ p. p.name) w.db.peers) in
        let last =
          rotation out staging parse now fuel key hostname others self pass (rotation_of w) in
        let result = rotate_cleanly out staging parse now fuel key hostname others self pass w in
        (last.1.rotated ≡ false
          → IsErr result.0
            × P last.1.world.remote
            × (result.1.db ≡ w.db)
            × (result.1.remote ≡ (staging.remove_all next_dir last.1.world.remote).1))
        × (last.1.rotated ≡ true
            → (result.1.db ≡ last.1.world.db) × (result.1.remote ≡ last.1.world.remote))
  unfolding rotate_cleanly
  rotate_cleanly_undoes exclude w P d keeps unsent =
      let others = peers_to_rotate hostname exclude (sort_by (λ p. p.name) w.db.peers) in
      let run = rotation out staging parse now fuel key hostname others self pass in
      let begun : Undoable w.db (rotation_of w) =
        inr (map_id (restored []) w.db.peers (λ p. restored_none p), refl, refl) in
      let current = peers_to_rotate-Current w.db hostname exclude d in
      let (clean, marks) =
        Ends-Clean P w.db run (rotation_of w) (Ends-rotation P w.db others keeps current)
          (begun, inr unsent) in
      let last = run (rotation_of w) in
      (
        λ h.
            let back = clean_up_undoes w.db last.1 clean.0 h in
            (fails_unrotated last marks h, unsent_still P last.1 clean.1 h, back.0, back.1),
        λ h. clean_up_keeps last.1 h,
      )
