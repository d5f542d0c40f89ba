-- ===== src/Mqtt/Startup/Certificates.antt =====
-- How the set-up of the publisher fails (src/mqtt.rs).
use ocpp_proxy.Base.{
  ℕ, String, Option, none, some, ◌≡◌, refl, sym, subst, ◌⊎◌, inl, inr, arith, Result, err, err-inj,
  Result-cases, Option-cases,
}
use ocpp_proxy.Errors.{ProxyError}
use ocpp_proxy.Errors
use ocpp_proxy.Config.{MqttConfig}
use ocpp_proxy.Mqtt.Startup.{unread, read_client_auth, build_tls_config, new}
use ocpp_proxy.SnapshotStore.{SnapshotMap}

module _ (read : String → Result String String) (c : MqttConfig) where
  -- a certificate file that TLS needs and that is configured
  abbrev pub IsNeeded : String → Type 0
  IsNeeded path =
      (c.ca_cert_path ≡ some path)
      ⊎ ((c.client_cert_path ≡ some path) ⊎ (c.client_key_path ≡ some path))

  -- The error names a configured file that cannot be read.
  abbrev pub Unreadable : ProxyError → Type 0
  Unreadable e =
      (path : String) × (why : String) × (d : String) × ((ca : String) × (c.ca_cert_path ≡ some ca))
      × IsNeeded path
      × (read path ≡ err why)
      × (e ≡ Errors.tls d)

  unreadable :
      (what path why ca : String) (e : ProxyError)
      → c.ca_cert_path ≡ some ca
      → IsNeeded path
      → read path ≡ err why
      → e ≡ unread what path why
      → Unreadable e
  unreadable what path why ca e a needed bad same = (path, why, _, (ca, a), needed, bad, same)

  same_error :
      {A : Type 0} → (e x : ProxyError) (r : Result ProxyError A) → r ≡ err x → r ≡ err e → e ≡ x
  same_error e x r h k = err-inj e x r k h

  read_client_auth-err :
      (cert key : Option String) (ca : String) (e : ProxyError)
      → c.ca_cert_path ≡ some ca
      → c.client_cert_path ≡ cert
      → c.client_key_path ≡ key
      → read_client_auth read cert key ≡ err e
      → Unreadable e
  unfolding read_client_auth
  read_client_auth-err none key ca e a ce ke h = absurd (cc)
  read_client_auth-err (some cert) none ca e a ce ke h = absurd (cc)
  read_client_auth-err (some cert) (some key) ca e a ce ke h = elim (Result-cases (read cert)) [
    | inr (why, bad) ↦
        unreadable "client certificate" cert why ca e a (inr (inl ce)) bad
          (same_error e _ _ refl (rw (bad, read_client_auth) at h))
    | inl (text, good) ↦ elim (Result-cases (read key)) [
      | inr (why, bad) ↦
          unreadable "client key" key why ca e a (inr (inr ke)) bad
            (same_error e _ _ refl (rw (good, bad, read_client_auth) at h))
      | inl (text', good') ↦ absurd (ground (arith, good, good', h))
    ]
  ]

  build_tls_config-err : (e : ProxyError) → build_tls_config read c ≡ err e → Unreadable e
  unfolding build_tls_config
  build_tls_config-err e h = elim (Option-cases c.ca_cert_path) [
    | inl n ↦ absurd (ground (arith, n, h))
    | inr (ca, a) ↦ elim (Result-cases (read ca)) [
      | inr (why, bad) ↦
          unreadable "CA certificate" ca why ca e a (inl a) bad
            (same_error e _ _ refl (rw (a, bad, build_tls_config) at h))
      | inl (text, good) ↦
          elim (Result-cases (read_client_auth read c.client_cert_path c.client_key_path)) [
            | inl (auth, fine) ↦ absurd (ground (arith, a, good, fine, h))
            | inr (x, failed) ↦
                let same = same_error e x _ refl (rw (a, good, failed, build_tls_config) at h) in
                subst Unreadable (sym same) (
                  read_client_auth-err c.client_cert_path c.client_key_path ca x a refl refl failed)
          ]
    ]
  ]

  -- The set-up of the publisher fails only where TLS is configured and a certificate file that is configured
  -- cannot be read, and then with a TLS error.
  pub new-Unreadable :
      {Tx : Type 0}
      → (lwt : Option String) (size : ℕ) (restored : SnapshotMap) (e : ProxyError)
      → new read {Tx = Tx} c lwt size restored ≡ err e
      → Unreadable e
  unfolding new
  new-Unreadable lwt size restored e h = elim (Result-cases (build_tls_config read c)) [
    | inl (transport, fine) ↦ absurd (ground (arith, fine, h))
    | inr (x, failed) ↦
        let same = same_error e x _ refl (rw (failed, new) at h) in
        subst Unreadable (sym same) (build_tls_config-err x failed)
  ]
