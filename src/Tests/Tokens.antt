-- ===== src/Tests/Tokens.antt =====
-- Tokens at concrete inputs.
use certhold.Base.{
  ℕ, Text, text, Bool, true, false, ◌||◌, List, [], ◌∷◌, any, join, contains, split, trim_space,
  map, is_empty, ◌==◌, ◌≡◌, ap, nat_eq, refl,
}
use certhold.Errors.{token_not_found, ok, err, IsErr}
use certhold.Db.{Db, has_group}
use certhold.Db.Tokens.{
  consume_token, consume_token_tx, lookup_token, mark_consumed, commit_if_staged,
  commit_staged_reenroll, write_staged, settle_allowed, split_groups_csv, comma, staged_of,
}
use certhold.Exec.{in_tx, for_each}
use certhold.Db.Peers.{get_peer, update_rows}
use certhold.Db.Groups.{
  set_peer_groups_table_strict_tx, clear_rows, group_exists_tx, insert_row, create_group,
}
use certhold.Db.Meta.{bump_fleet_rev}
use certhold.Db.Tokens.Csv.{IsClean, split_groups_csv-join, comma_group_not_redeemable}
use certhold.Db.Tokens.Redeem.{consume_token_refuses, consume_token_ordinary}
use certhold.Db.Tokens.Redeem.Reenroll.{Reconfigured}
use certhold.Db.Tokens.Redeem.Outcome.{
  IsReady, Obstacle, consume_token_reconfigures, consume_token_refuses_stale,
}
use certhold.Tests.Data.{web, staged, plain, with_comma, fleet, without_dev}

or_right : (a b : Bool) → b ≡ true → (a || b) ≡ true
or_right true b h = refl
or_right false b h = h

abbrev peers_of : Db → List (Text × ℕ × Bool)
peers_of db = map (λ p. (p.pull_token, p.serial, p.inbound)) db.peers

staged-IsReady : IsReady staged web fleet
unfolding ◌==◌ split_groups_csv split trim_space staged_of contains
staged-IsReady = record {
  found = refl;
  live = refl;
  distinct_groups = (refl, tt);
  groups_there = λ g m. or_right (text "ops" == g) (contains (text "dev" ∷ []) g) m;
  allowed_fit = ((refl, (refl, tt)), λ g m. m);
}

consume_token_reconfigures_example :
    ((consume_token (text "t1") fleet).0 ≡ ok staged)
    × Reconfigured staged (text "ssh-ed25519 NEW") web fleet (consume_token (text "t1") fleet).1
unfolding ◌==◌
consume_token_reconfigures_example =
    consume_token_reconfigures (text "t1") fleet staged (text "ssh-ed25519 NEW") web refl refl refl
      staged-IsReady

-- The group of the token was deleted after the mint.
dev_gone : Obstacle staged without_dev
unfolding ◌==◌ split_groups_csv split trim_space
dev_gone = Obstacle.group_missing refl

consume_token_refuses_stale_example :
    IsErr (consume_token (text "t1") without_dev).0
    × ((consume_token (text "t1") without_dev).1 ≡ without_dev)
unfolding ◌==◌
consume_token_refuses_stale_example =
    consume_token_refuses_stale (text "t1") without_dev staged (text "ssh-ed25519 NEW") refl refl
      refl dev_gone

t2_redeemed : (consume_token (text "t2") fleet).0 ≡ ok plain
unfolding ◌==◌
t2_redeemed = ap (λ r. r.0) (consume_token_ordinary (text "t2") fleet plain refl refl refl)

t9_missing : (consume_token (text "t9") fleet).0 ≡ err token_not_found
unfolding ◌==◌
t9_missing = ap (λ r. r.0) ((consume_token_refuses (text "t9") fleet).0 refl)

clean :
    (g : Text)
    → is_empty g ≡ false
    → trim_space g ≡ g
    → any (λ c. nat_eq c comma) g ≡ false
    → IsClean g
clean g f t c = record { full = f; trimmed = t; no_comma = c }

split_groups_csv-join_example :
    split_groups_csv (join comma (text "ops" ∷ text "dev" ∷ [])) ≡ text "ops" ∷ text "dev" ∷ []
unfolding trim_space
split_groups_csv-join_example =
    split_groups_csv-join (text "ops" ∷ text "dev" ∷ [])
      (clean (text "ops") refl refl refl, (clean (text "dev") refl refl refl, tt))

comma_group_not_redeemable_example :
    ((before : Db)
      → has_group before (text "ops,b") ≡ false
      → (create_group (text "ops,b") before).0 ≡ ok tt)
    × IsErr (consume_token (text "t3") fleet).0
    × ((consume_token (text "t3") fleet).1 ≡ fleet)
unfolding ◌==◌ trim_space join
comma_group_not_redeemable_example =
    comma_group_not_redeemable (text "t3") fleet with_comma (text "ssh-ed25519 NEW") (text "ops")
      (text "b") (clean (text "ops") refl refl refl) (clean (text "b") refl refl refl) refl refl
      refl refl refl refl

-- The redemption of "t1" as the code runs it: the new row of the peer, and the groups.
redeemed_peer : peers_of (consume_token (text "t1") fleet).1 ≡ (text "p2", 2, true) ∷ []
unfolding consume_token ◌==◌ in_tx consume_token_tx lookup_token mark_consumed commit_if_staged
    commit_staged_reenroll get_peer write_staged set_peer_groups_table_strict_tx clear_rows for_each
    split_groups_csv split trim_space group_exists_tx insert_row settle_allowed bump_fleet_rev
    update_rows staged_of
redeemed_peer = refl
