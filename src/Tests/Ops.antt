-- ===== src/Tests/Ops.antt =====
-- The operations at concrete inputs. What is outside is the text of one authorized_keys file.
use certhold.Base.{
  Text, text, Bool, true, false, Option, none, some, List, [], ◌∷◌, ◌==◌, ◌≡◌, ◌⊎◌, refl,
  trim_space, any, contains,
}
use certhold.Errors.{Error, external, self_guard, ok, err, IsOk, IsErr}
use certhold.Db.{has_peer, has_group, manager_principal, Db, Peer, peer_of}
use certhold.Db.Peers.{set_peer_inbound}
use certhold.Db.Peers.Delete.{PeerGone}
use certhold.Db.Meta.{get_meta}
use certhold.Peerfiles.AuthorizedKeys.{ParsedKey}
use certhold.Ops.{World, Op}
use certhold.Ops.Outside.{Outside}
use certhold.Ops.SelfName.{resolve_self_name, guard_not_self_peer, ensure_instance_key}
use certhold.Ops.Guarded.{self_row_guarded}
use certhold.Ops.Edit.{make_client, remove_peer}
use certhold.Ops.Edit.Client.{dialed, stripped, make_client_strips_first}
use certhold.Ops.Edit.Removal.{bumped}
use certhold.Ops.Update.{update_peer_groups}
use certhold.Ops.Revoke.{revoke_peer, revoke_clear, clear_remote}
use certhold.Ops.Revoke.Order.{revoke_clear_last}
use certhold.Ops.Groups.{group_create, group_delete}
use certhold.Ops.Groups.Delete.{group_delete_last}
use certhold.Ops.Groups.Reserved.{group_create_reserved}
use certhold.Ops.Enroll.{EnrollSpec, mint_enroll, reachable_host_entries}
use certhold.Ops.Enroll.Stages.{TokensAndKey, mint_enroll_stages}
use certhold.Ops.Unlocker.{Unlocker}
use certhold.Db.Hosts.{reachable_hosts}
use certhold.Db.Hosts.Reach.{hosts_of}
use certhold.Peerfiles.Layout.{HostEntry}
use certhold.Ops.Enroll.Hosts.Agree.{reachable_host_entries_agree}
use certhold.Tests.Data.{web, fleet, fleet-RefsValid}

abbrev pub outside : Outside Text
outside = record {
  hostname = λ s. (ok (text "mgr"), s);
  new_instance_key = λ s. (ok (text "k9"), s);
  new_token = λ s. (ok (text "tok"), s);
  load_ca = λ s. (ok tt, s);
  ca_pub = λ s. (ok (text "KEY"), s);
  instance_ca_pubs = λ s. (ok (text "KEY" ∷ []), s);
  new_peer_key = λ s. (ok (text "PRIV", text "PUB", text "FP"), s);
  sign = λ pk id ps s. (ok (text "CERT9", 9), s);
  self_cert_key_id = λ k s. (ok [], s);
  dial = λ host user s. (ok tt, s);
  read_file = λ host path s. (ok s, s);
  write_file = λ host path content s. (ok tt, content);
  splice_config = λ host path k block s. (ok tt, s);
  verify_health = λ host s. (err external, s);
  clear_peer = λ host user k cas s. (ok tt, []);
}

abbrev pub parse : Text → Option ParsedKey
parse line = none

abbrev no_rekey : Text → Op Text (Unit {0})
no_rekey self w = (ok tt, w)

abbrev world : World Text
world = record { db = fleet; remote = text "ssh-rsa A"; events = [] }

self_row_guarded_example :
    (remove_peer outside (text "mgr") world ≡ (err (self_guard (text "mgr")), world))
    × ((groups : List Text) (host : Text)
        → update_peer_groups outside (text "mgr") groups host (text "mgr") world
          ≡ (err (self_guard (text "mgr")), world))
    × (make_client outside parse (text "mgr") (text "mgr") world
        ≡ (err (self_guard (text "mgr")), world))
    × ((by_rekey : Bool)
        → revoke_peer outside no_rekey (text "mgr") (text "mgr") by_rekey world
          ≡ (err (self_guard (text "mgr")), world))
unfolding get_meta ◌==◌
self_row_guarded_example =
    self_row_guarded outside parse no_rekey world (text "mgr") (text "mgr") refl refl refl

make_client_strips_first_example :
    ((e : Error)
      → ((dialed outside parse (text "web") web world).0 ≡ err e)
        ⊎ (((dialed outside parse (text "web") web world).0 ≡ ok tt)
            × ((stripped outside parse (text "web") web world).0 ≡ err e))
      → ((make_client outside parse (text "web") [] world).0 ≡ err e)
        × ((make_client outside parse (text "web") [] world).1.db ≡ fleet))
    × ((dialed outside parse (text "web") web world).0 ≡ ok tt
        → (stripped outside parse (text "web") web world).0 ≡ ok tt
        → ((make_client outside parse (text "web") [] world).0 ≡ ok tt)
          × ((make_client outside parse (text "web") [] world).1.db
              ≡ bumped (set_peer_inbound (text "web") false fleet).1))
unfolding resolve_self_name guard_not_self_peer get_meta ◌==◌
make_client_strips_first_example =
    make_client_strips_first outside parse world (text "web") [] (text "mgr") web refl refl refl
      refl refl

revoke_clear_last_example :
    ((e : Error)
      → (clear_remote outside no_rekey web (text "k1") (text "KEY" ∷ []) world).0 ≡ err e
      → ((revoke_clear outside no_rekey web world).0 ≡ err e)
        × ((revoke_clear outside no_rekey web world).1.db ≡ fleet))
    × ((clear_remote outside no_rekey web (text "k1") (text "KEY" ∷ []) world).0 ≡ ok tt
        → has_peer fleet (text "web") ≡ true
        → ((revoke_clear outside no_rekey web world).0 ≡ ok tt)
          × PeerGone (text "web") fleet (revoke_clear outside no_rekey web world).1.db)
unfolding ensure_instance_key get_meta ◌==◌
revoke_clear_last_example =
    revoke_clear_last outside no_rekey web world world (text "KEY" ∷ []) (text "k1") refl refl refl

abbrev spec : EnrollSpec
spec = record {
  name = text "web";
  groups = text "dev" ∷ [];
  allowed = [];
  user = [];
  address = [];
  client = false;
  client_set = false;
  allowed_set = false;
  base_url = text "https://mgr";
}

mint_enroll_stages_example :
    TokensAndKey fleet (mint_enroll outside (λ es. text "TAR") (text "SCRIPT") 5 spec world).1.db
unfolding ◌==◌
mint_enroll_stages_example =
    mint_enroll_stages outside (λ es. text "TAR") (text "SCRIPT") 5 spec web world refl

abbrev unlocker : Unlocker
unlocker = record { cached = none; answers = ok (text "secret") ∷ []; prompts = 0 }

group_delete_last_example :
    (IsErr (group_delete outside parse (text "ops") [] world).0
      → has_group (group_delete outside parse (text "ops") [] world).1.db (text "ops") ≡ true)
    × (IsOk (group_delete outside parse (text "ops") [] world).0
        → has_group (group_delete outside parse (text "ops") [] world).1.db (text "ops") ≡ false)
unfolding ◌==◌
group_delete_last_example = group_delete_last outside parse (text "ops") [] world refl

group_create_reserved_example :
    ((group_create (text " manager") world).0 ≡ ok tt)
    × (has_group (group_create (text " manager") world).1.db manager_principal ≡ true)
unfolding trim_space ◌==◌
group_create_reserved_example = group_create_reserved (text " manager") world refl refl refl

-- The fleet once the new peer "db1" is in the group "ops".
abbrev with_db1 : Db
with_db1 = record fleet {
  peer_groups_rows =
      record { peer_name = text "db1"; group_name = text "ops" } ∷ fleet.peer_groups_rows;
}

reachable_host_entries_agree_example :
    (hs : List HostEntry) × (reachable_host_entries (text "db1") (text "ops" ∷ []) fleet
      ≡ (ok hs, fleet))
    × ((q : Peer)
        → peer_of fleet q.name ≡ some q
        → peer_of with_db1 q.name ≡ some q
        → any (λ h. h.name == q.name) hs
          ≡ any (λ h. h.name == q.name) (hosts_of (reachable_hosts (text "db1") with_db1).0))
unfolding contains ◌==◌
reachable_host_entries_agree_example =
    reachable_host_entries_agree (text "db1") (text "ops" ∷ []) fleet with_db1 fleet-RefsValid refl
      (λ g. refl) (refl, tt)
