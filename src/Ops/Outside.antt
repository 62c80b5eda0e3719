-- ===== src/Ops/Outside.antt =====
-- What the operations call outside of the database: the host name of the machine, random keys, the
-- CA of internal/ca, and the SSH connection to a peer of internal/sshpush. Each call may fail, and
-- may change the state outside.
use certhold.Base.{ℕ, Text, List}
use certhold.Exec.{Exec}

pub record Outside (R : Type 0) : Type 0 where
  -- `os.Hostname`
  pub hostname : Exec R Text
  -- `generateInstanceKey`, `token.Generate`
  pub new_instance_key : Exec R Text
  pub new_token : Exec R Text
  -- `ca.LoadWithPassphrase`, `loadCAPublicKey`, `instanceCAPubKeys`
  pub load_ca : Exec R (Unit {0})
  pub ca_pub : Exec R Text
  pub instance_ca_pubs : Exec R (List Text)
  -- `ca.GeneratePeerKey`: the private key, the public key and its fingerprint
  pub new_peer_key : Exec R (Text × Text × Text)
  -- `ssh.ParseAuthorizedKey` and `SignCert`: public key, key id, principals; certificate and serial
  pub sign : Text → Text → List Text → Exec R (Text × ℕ)
  -- `selfCertKeyID`: [] when there is no self certificate
  pub self_cert_key_id : Text → Exec R Text
  -- `dialPush`: host and user
  pub dial : Text → Text → Exec R (Unit {0})
  -- the methods of the `Pusher` that was dialed at the host
  pub read_file : Text → Text → Exec R Text
  pub write_file : Text → Text → Text → Exec R (Unit {0})
  pub splice_config : Text → Text → Text → Text → Exec R (Unit {0})
  pub verify_health : Text → Exec R (Unit {0})
  -- host, user, instance key and the CA keys
  pub clear_peer : Text → Text → Text → List Text → Exec R (Unit {0})
