-- ===== src/Ops/SelfName.antt =====
-- internal/ops/selfguard.go and instancekey.go.
use certhold.Base.{Text, ◌==◌, Option, none, some, is_empty, if◌then◌else◌}
use certhold.Errors.{self_guard, ok}
use certhold.Exec.{◌>>=◌, ◌>>◌, pure, refuse_if}
use certhold.Db.Meta.{get_meta, set_meta, instance_key, self_name}
use certhold.Ops.{Op, on_db, on_remote}
use certhold.Ops.Outside.{Outside}

module _ {R : Type 0} (out : Outside R) where
  abbrev pub persisted_or : Option Text → Op R Text
  persisted_or none w = on_remote out.hostname w
  persisted_or (some v) w = if is_empty v then on_remote out.hostname w else (ok v, w)

  -- `resolveSelfName`
  unfoldable pub resolve_self_name : Text → Op R Text
  resolve_self_name hostname w =
      if is_empty hostname
      then (on_db (get_meta self_name) >>= persisted_or) w
      else (ok hostname, w)

  -- `guardNotSelfPeer`
  unfoldable pub guard_not_self_peer : Text → Text → Op R (Unit {0})
  unfolding resolve_self_name
  guard_not_self_peer name hostname = do
    self ← resolve_self_name hostname
    refuse_if (name == self) (self_guard name)

  abbrev pub key_or_new : Option Text → Op R Text
  key_or_new (some k) = pure k
  key_or_new none = do k ← on_remote out.new_instance_key; on_db (set_meta instance_key k); pure k

  -- `EnsureInstanceKey`
  unfoldable pub ensure_instance_key : Op R Text
  ensure_instance_key = on_db (get_meta instance_key) >>= key_or_new
