-- ===== src/Certs/Pinning.antt =====
-- The leaves of the two programs against what `serverCertificateHashes` allows, and the hash that goes
-- with each.
use semantic_echo.Base.{
  ◌+◌, ◌*◌, ◌≤◌, ◌≡◌, refl, sym, true, false, List, [], ◌∷◌, some, inl, inr, arith, Option-cases,
}
use mathlib.Core.Path.{subst}
use semantic_echo.Base.Text.{Bytes, codes}
use semantic_echo.Budgets.{day}
use semantic_echo.Hosts.{add_hosts}
use semantic_echo.Certs.{
  KeyUsage, Certificate, Crypto, Result, ok, ◌>>=◌, or_fatal, Draw, KeyPair, hash_of, leaf_template,
  mint_wt_cert, mint_leaf, new_template, signs_data,
}
use semantic_echo.Certs.Modes.{leaf_of}

-- A certificate that a page may pin: a leaf that signs and serves, for at most fourteen days.
pub record IsPinnable (t : Certificate) : Type 0 where
  pub not_ca : t.is_ca ≡ false
  pub constrained : t.basic_constraints_valid ≡ true
  pub signs : t.key_usage.digital_signature ≡ true
  pub serves : t.server_auth ≡ true
  pub window : t.not_after ≤ t.not_before + 14 * day

module _ (c : Crypto) where
  -- The second reading of the clock is at most a day after the first.
  abbrev pub Prompt : Draw c → Type 0
  Prompt d = d.after ≤ d.before + day

  -- A pair whose leaf was created, for these hosts, from a template that may be pinned.
  pub record IsLeaf (hosts : List Bytes) (pair : KeyPair c) (der : Bytes) : Type 0 where
    pub template : Certificate
    pub parent : c.Parent
    pub signer : c.Key
    pub pinnable : IsPinnable template
    pub for_hosts : template.names ≡ add_hosts (record { ip_addresses = []; dns_names = [] }) hosts
    pub created : c.create_certificate template parent pair.private_key signer ≡ some der
    pub first : leaf_of c pair ≡ some der

  pub leaf-IsPinnable :
      (cn : Bytes) (hosts : List Bytes) (usage : KeyUsage) (d : Draw c)
      → Prompt d
      → usage.digital_signature ≡ true
      → IsPinnable (record (leaf_template c cn hosts d) { key_usage = usage })
  unfolding new_template
  leaf-IsPinnable cn hosts usage d prompt signs = record {
    not_ca = refl;
    constrained = refl;
    signs = signs;
    serves = refl;
    window = omega arith;
  }

  -- What both mints do with a template.
  abbrev self_signed : Certificate → Draw c → Result (KeyPair c × Bytes)
  self_signed t d = do
    key ← or_fatal d.key
    der ← or_fatal (c.create_certificate t (c.self t) key key)
    ok (record { chain = der ∷ []; private_key = key }, hash_of c der)

  -- A minted pair and its hash.
  abbrev pub IsPinned : List Bytes → KeyPair c → Bytes → Type 0
  IsPinned hosts pair hash = (der : Bytes) × IsLeaf hosts pair der × (hash ≡ hash_of c der)

  self_signed-IsPinned :
      (hosts : List Bytes) (t : Certificate) (d : Draw c) (m : KeyPair c × Bytes)
      → IsPinnable t
      → t.names ≡ add_hosts (record { ip_addresses = []; dns_names = [] }) hosts
      → self_signed t d ≡ ok m
      → IsPinned hosts m.0 m.1
  self_signed-IsPinned hosts t d m pinnable names e = elim (Option-cases d.key) [
    | inl k ↦ cc (rw k at e)
    | inr (key, k) ↦ elim (Option-cases (c.create_certificate t (c.self t) key key)) [
      | inl f ↦ cc (rw (k, f) at e)
      | inr (der, f) ↦
          let m_eq : m ≡ (record { chain = der ∷ []; private_key = key }, hash_of c der) =
            cc (rw (k, f) at e) in
          subst (λ (m : KeyPair c × Bytes). IsPinned hosts m.0 m.1) (sym m_eq)
            (
              der,
              record {
                template = t;
                parent = c.self t;
                signer = key;
                pinnable = pinnable;
                for_hosts = names;
                created = f;
                first = refl;
              },
              refl,
            )
    ]
  ]

  -- A leaf that `mint_wt_cert` hands out is new, for the hosts of the flag, and of a form that a page may
  -- pin: not a CA, a digital signature and server authentication among its usages, valid for at most
  -- fourteen days. The hash that comes with it is that of this leaf.
  pub mint_wt_cert-IsPinned :
      (hosts : List Bytes) (d : Draw c) (m : KeyPair c × Bytes)
      → Prompt d
      → mint_wt_cert c hosts d ≡ ok m
      → IsPinned hosts m.0 m.1
  unfolding mint_wt_cert
  mint_wt_cert-IsPinned hosts d m prompt e =
      self_signed-IsPinned hosts (leaf_template c (codes "wt-lab") hosts d) d m
        (leaf-IsPinnable (codes "wt-lab") hosts signs_data d prompt refl) refl e

  pub mint_leaf-IsPinned :
      (hosts : List Bytes) (usage : KeyUsage) (d : Draw c) (m : KeyPair c × Bytes)
      → Prompt d
      → usage.digital_signature ≡ true
      → mint_leaf c hosts usage d ≡ ok m
      → IsPinned hosts m.0 m.1
  unfolding mint_leaf
  mint_leaf-IsPinned hosts usage d m prompt signs e =
      self_signed-IsPinned hosts
        (record (leaf_template c (codes "wt-pinned") hosts d) { key_usage = usage }) d m
        (leaf-IsPinnable (codes "wt-pinned") hosts usage d prompt signs) refl e
