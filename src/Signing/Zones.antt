-- ===== src/Signing/Zones.antt =====
-- `RootZone` of crates/federate-root/src/lib.rs: signing and verification.
use federate.Base.{Text, Bytes, String, none, some, ◌∷◌, List, [], text_eq, values}
use federate.Core.{Result, ok, ◌>>=◌, ◌>>◌, FederateError, verification_failed, guard}
use federate.Root.{TldRecord, RootZone}
use federate.Host.{Host}
use federate.Identity.{NodeIdentity, canonical_bytes, check_signature, sign}
use federate.Signing.Tlds

abbrev pub fail : RootZone → String → FederateError
fail zone reason = verification_failed "root" zone.network reason

module _ (h : Host) where
  unfoldable pub signable_bytes : RootZone → Result Bytes
  signable_bytes zone = canonical_bytes h (h.serde.zone_value (record zone { signature = none }))

  -- `for record in self.tlds.values()`.
  unfoldable pub verify_tlds : Text → List TldRecord → Result (Unit {0})
  verify_tlds key [] = ok tt
  verify_tlds key (rec ∷ rest) = do Tlds.verify h rec key; verify_tlds key rest

  unfoldable pub verify : RootZone → Text → Result (Unit {0})
  verify zone trusted_root_key = do
    guard (text_eq zone.root_public_key trusted_root_key)
        (fail zone "root zone advertises a different root key than the trusted anchor")
    check_signature h trusted_root_key (signable_bytes zone) zone.signature
        (fail zone "root zone is unsigned")
        (fail zone "root zone signature invalid (tampered or wrong key)")
    verify_tlds trusted_root_key (values zone.tlds)

  unfoldable pub signed : NodeIdentity → RootZone → Result RootZone
  signed i zone = do b ← signable_bytes zone; ok (record zone { signature = some (sign h i b) })
