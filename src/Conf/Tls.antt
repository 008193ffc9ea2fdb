-- ===== src/Conf/Tls.antt =====
-- MakeTLSConfig of server/conf/conf.go. What crypto/tls, crypto/x509 and the file system answer is a
-- parameter.
use nats_replicator.Prelude.{
  ℕ, String, ◌==◌, ◌≡◌, refl, true, ◌||◌, Option, none, some, if◌then◌else◌, arith, ◌⊎◌, inl, inr,
  Bool-cases,
}
use nats_replicator.Result.{Result, ok, err, Result-cases, bad_key_pair, bad_certificate}
use nats_replicator.Conf.{TlsConf}

pub record Crypto : Type 0 where
  -- tls.LoadX509KeyPair: a certificate, with a chain that is not empty
  pub load_key_pair : String → String → Result ℕ
  -- x509.ParseCertificate, of the first of its chain
  pub parse_certificate : ℕ → Result ℕ
  pub read_file : String → Result String
  -- x509.NewCertPool, with the certificates of a PEM text
  pub pool_of : String → ℕ

-- tls.Config, as far as the code sets it: the certificate with its leaf, and the pool of the roots.
-- The minimal version, the wish for no client certificate and the preference of the server's cipher
-- suites are always the same.
pub record TlsConfig : Type 0 where
  pub certificate : ℕ
  pub leaf : ℕ
  pub root_cas : Option ℕ

-- The end, which reads the root certificates.
abbrev with_roots : Crypto → String → TlsConfig → Result (Option TlsConfig)
with_roots crypto root config =
    if root == "" then ok (some config) else elim (crypto.read_file root) [
      | err e ↦ err e
      | ok pem ↦ ok (some (record config { root_cas = some (crypto.pool_of pem) }))
    ]

-- MakeTLSConfig
unfoldable pub make_tls_config : Crypto → TlsConf → Result (Option TlsConfig)
make_tls_config crypto conf =
    if (conf.cert == "") || (conf.key == "")
    then ok none
    else elim (crypto.load_key_pair conf.cert conf.key) [
      | err e ↦ err (bad_key_pair e)
      | ok certificate ↦ elim (crypto.parse_certificate certificate) [
        | err e ↦ err (bad_certificate e)
        | ok leaf ↦
            with_roots crypto conf.root
              (record { certificate = certificate; leaf = leaf; root_cas = none })
      ]
    ]

-- The roots are there exactly when they are configured.
abbrev pub HasRoots : Crypto → String → TlsConfig → Type 0
HasRoots crypto root config =
    (((root == "") ≡ true) × (config.root_cas ≡ none))
    ⊎ ((pem : String) × (crypto.read_file root ≡ ok pem)
        × (config.root_cas ≡ some (crypto.pool_of pem)))

with_roots-HasRoots :
    (crypto : Crypto) (root : String) (base config : TlsConfig)
    → base.root_cas ≡ none
    → with_roots crypto root base ≡ ok (some config)
    → HasRoots crypto root config
with_roots-HasRoots crypto root base config n h = elim (Bool-cases (root == "")) [
  | inl e ↦ inl (e, ground arith)
  | inr e ↦ elim (Result-cases (crypto.read_file root)) [
    | inl (pem, r) ↦ inr (pem, r, ground arith)
    | inr (x, r) ↦ absurd (ground arith)
  ]
]

-- A configuration that MakeTLSConfig returns has the certificate of the two files, its leaf, and
-- the roots exactly when they are configured.
pub make_tls_config_lem :
    (crypto : Crypto) (conf : TlsConf) (config : TlsConfig)
    → make_tls_config crypto conf ≡ ok (some config)
    → (crypto.load_key_pair conf.cert conf.key ≡ ok config.certificate)
      × (crypto.parse_certificate config.certificate ≡ ok config.leaf)
      × HasRoots crypto conf.root config
unfolding make_tls_config
make_tls_config_lem crypto conf config h =
    elim (Bool-cases ((conf.cert == "") || (conf.key == ""))) [
      | inl e ↦ absurd (ground arith)
      | inr e ↦ elim (Result-cases (crypto.load_key_pair conf.cert conf.key)) [
        | inr (x, l) ↦ absurd (ground arith)
        | inl (c, l) ↦ elim (Result-cases (crypto.parse_certificate c)) [
          | inr (x, q) ↦ absurd (ground arith)
          | inl (leaf, q) ↦
              let base : TlsConfig = record { certificate = c; leaf = leaf; root_cas = none } in
              (
                ground arith,
                ground arith,
                with_roots-HasRoots crypto conf.root base config refl (ground arith),
              )
        ]
      ]
    ]
