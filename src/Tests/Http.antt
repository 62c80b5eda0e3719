-- ===== src/Tests/Http.antt =====
-- The HTTP handlers at concrete inputs.
use certhold.Base.{none, text, true, some, List, [], ◌∷◌, any, if◌then◌else◌, ◌==◌, ◌≡◌, ap, refl}
use certhold.Errors.{token_not_found, err}
use certhold.Exec.{in_tx}
use certhold.Db.Peers.{get_peer_by_pull_token, set_peer_target_user, update_peer}
use certhold.Db.Tokens.{
  consume_token, consume_token_tx, lookup_token, mark_consumed, commit_if_staged,
}
use certhold.Db.Meta.{get_meta}
use certhold.Db.Tokens.Redeem.{consume_token_refuses}
use certhold.Http.{Request}
use certhold.Http.Address.{split_host_port, before_last, after_last, in_brackets}
use certhold.Http.Quote.{shell_quote, sh_word, outside, shell_quote_reads_back}
use certhold.Http.Enroll.{enroll, after_consume, user_objection, acceptable_user, valid_username}
use certhold.Http.Enroll.Refused.{Served, IsFit, enroll_serves, enroll_user_gate, enroll_retryable}
use certhold.Http.Enroll.Once.{already_consumed, not_found, enroll_once}
use certhold.Db.Integrity.History.{Call, run}
use certhold.Http.Pull.{pull, pull_peer, serve_bundle}
use certhold.Http.Pull.Serves.{Pulled, pull_serves}
use certhold.Tests.Data.{plain, fleet}

abbrev request : Request
request = record {
  token = text "t2";
  user = text "root";
  remote_addr = text "10.0.0.7:5022";
  tls = true;
  forwarded_proto = [];
  host = text "mgr:8443";
}

served : (enroll request fleet).0.status ≡ 200
unfolding enroll user_objection acceptable_user valid_username consume_token consume_token_tx
    lookup_token mark_consumed commit_if_staged in_tx set_peer_target_user update_peer ◌==◌
served = refl

enroll_serves_example : Served request fleet
enroll_serves_example = enroll_serves request fleet served

-- The peer is enrolled again under another token, and put into a group.
abbrev later_calls : List Call
later_calls =
    Call.mints 9 (text "t7") (text "web") (text "ops") (text "root") none
    ∷ Call.redeems (text "t7")
    ∷ Call.ensures (text "dba")
    ∷ []

abbrev eve : Request
eve = record request { user = text "eve" }

enroll_once_example :
    let now = run later_calls (enroll request fleet).1 in
    enroll eve now
    ≡ (if any (λ t. t.token == text "t2") now.tokens then already_consumed else not_found, now)
unfolding ◌==◌
enroll_once_example = enroll_once request eve fleet later_calls served refl refl

enroll_user_gate_example :
    ((¬ (IsFit (text "root") plain))
      → ((enroll request fleet).0.status ≡ 400) × ((enroll request fleet).1 ≡ fleet))
    × (IsFit (text "root") plain
        → enroll request fleet ≡ after_consume request (consume_token (text "t2") fleet))
unfolding ◌==◌
enroll_user_gate_example = enroll_user_gate request fleet plain refl refl refl

t9_missing : (consume_token (text "t9") fleet).0 ≡ err token_not_found
unfolding ◌==◌
t9_missing = ap (λ r. r.0) ((consume_token_refuses (text "t9") fleet).0 refl)

enroll_retryable_example : (enroll (record request { token = text "t9" }) fleet).1 ≡ fleet
enroll_retryable_example =
    enroll_retryable (record request { token = text "t9" }) fleet token_not_found t9_missing

split_ipv6 : split_host_port (text "[::1]:22") ≡ some (text "::1")
unfolding split_host_port before_last after_last in_brackets
split_ipv6 = refl

split_bad : split_host_port (text "[::1]:[2]") ≡ none
unfolding split_host_port before_last after_last in_brackets
split_bad = refl

refreshed : (pull (text "p1") fleet).0.status ≡ 200
unfolding pull pull_peer get_peer_by_pull_token serve_bundle get_meta ◌==◌
refreshed = refl

pull_serves_example : Pulled (text "p1") fleet
pull_serves_example = pull_serves (text "p1") fleet refreshed

shell_quote_reads_back_example :
    sh_word outside (shell_quote (text "o'brien; rm")) ≡ some (text "o'brien; rm")
shell_quote_reads_back_example = shell_quote_reads_back (text "o'brien; rm")
