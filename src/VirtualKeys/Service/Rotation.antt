-- ===== src/VirtualKeys/Service/Rotation.antt =====
-- What the rows hold after a key has been rotated.
use portico_gateway.Base.{
  Bool, false, Option, none, some, ◌≡◌, refl, sym, subst, ap, ◌∙◌, arith, GoString, is_empty,
}
use portico_gateway.VirtualKeys.Token.{compose_token, new_secret}
use portico_gateway.VirtualKeys.Store.{VirtualKey, VirtualKeys, get_virtual_key}
use portico_gateway.VirtualKeys.Service.{Created, Random, stored, reissue, rotate}
use portico_gateway.VirtualKeys.Service.Lifecycle.{
  OwnsId, IsIssued, lookup-put, stored-put, get-find_row,
}

-- The row is the old one but for the salt, the digest and the time of the rotation.
pub record IsRotated (old vk : VirtualKey) : Type 0 where
  pub id : vk.id ≡ old.id
  pub tenant_id : vk.tenant_id ≡ old.tenant_id
  pub scopes : vk.scopes ≡ old.scopes
  pub enabled : vk.enabled ≡ old.enabled
  pub revoked_at : vk.revoked_at ≡ old.revoked_at

module _ (compute_hmac : GoString → GoString → GoString) where
  reissue_of_some :
      (fault : Bool) (now id : GoString) (secret salt : Option GoString) (vk : VirtualKey)
      (rows rows' : VirtualKeys) (k : Created)
      → reissue compute_hmac fault now id secret salt vk rows ≡ (rows', some k)
      → (s : GoString) × (t : GoString) × (secret ≡ some s)
        × (stored fault now
              (record vk { salt = t; hmac = compute_hmac t s; rotated_at = now })
              (compose_token id s)
              rows
            ≡ (rows', some k))
  unfolding reissue
  reissue_of_some fault now id none salt vk rows rows' k h = absurd (cc)
  reissue_of_some fault now id (some s) none vk rows rows' k h = absurd (cc)
  reissue_of_some fault now id (some s) (some t) vk rows rows' k h = (s, t, refl, h)

  pub rotate-IsIssued :
      (fault : Bool) (now tenant id : GoString) (random : Random) (rows rows' : VirtualKeys)
      (old : VirtualKey) (k : Created)
      → get_virtual_key tenant id rows ≡ some old
      → is_empty old.parent_kind ≡ false
      → OwnsId tenant id rows
      → rotate compute_hmac fault now random tenant id rows ≡ (rows', some k)
      → IsIssued compute_hmac random rows' k.vk k.token × IsRotated old k.vk
  unfolding rotate
  rotate-IsIssued fault now tenant id random rows rows' old k g kind own h =
      let (f, tn, i) = get-find_row tenant id rows old g in
      let re : reissue compute_hmac fault now id (new_secret random.secret) random.salt old rows
          ≡ (rows', some k) =
        ground (arith, g, h) in
      let (s, t, e, st) =
        reissue_of_some fault now id (new_secret random.secret) random.salt old rows rows' k re in
      let vk : VirtualKey = record old { salt = t; hmac = compute_hmac t s; rotated_at = now } in
      let (put, v, tok) = stored-put fault now vk (compose_token id s) rows rows' k st in
      let own' : OwnsId old.tenant_id old.id rows =
        subst (λ x. OwnsId x old.id rows) (sym tn)
          (subst (λ x. OwnsId tenant x rows) (sym i) own) in
      subst (λ x. IsIssued compute_hmac random rows' x k.token × IsRotated old x) (sym v)
        (
          record {
            secret = s;
            drawn = e;
            composed = tok ∙ ap (λ x. compose_token x s) (sym i);
            bound = refl;
            held = lookup-put fault now vk rows rows' kind own' put;
          },
          record { id = refl; tenant_id = refl; scopes = refl; enabled = refl; revoked_at = refl },
        )
