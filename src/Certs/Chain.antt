-- ===== src/Certs/Chain.antt =====
-- The page leaf of main.go under the local CA, from one boot to the next.
use semantic_echo.Base.{◌≡◌, refl, sym, ap, ◌∙◌, List, [], ◌∷◌, some, inl, inr, Option-cases}
use mathlib.Core.Path.{subst}
use semantic_echo.Base.Text.{Bytes, codes}
use semantic_echo.Files.{Files}
use semantic_echo.Certs.{
  Crypto, Result, ok, ◌>>=◌, or_fatal, or_panic, Draw, KeyPair, leaf_template, new_template,
  signs_data,
}
use semantic_echo.Certs.Inversion.{bind_ok}
use semantic_echo.Certs.Authority.{Writes, Authority, mint_page_chain, load_or_mint_ca}
use semantic_echo.Certs.Pinning.{Prompt, IsLeaf, leaf-IsPinnable}
use semantic_echo.Certs.Persistence.{both_written, load_or_mint_ca-persists}

module _ (c : Crypto) where
  -- A leaf of the page server under a CA.
  abbrev pub IsPage : List Bytes → Authority c → KeyPair c → Type 0
  IsPage hosts a pair =
      (der : Bytes) × (leaf : IsLeaf c hosts pair der) × (c.parse_certificate a.der
        ≡ some leaf.parent)
      × (leaf.signer ≡ a.key)
      × (pair.chain ≡ der ∷ a.der ∷ [])

  -- `mintPageChain` from the CA on.
  abbrev under_ca : List Bytes → Draw c → Authority c → Result (KeyPair c × Authority c)
  under_ca hosts d a = do
    key ← or_fatal d.key
    parent ← or_panic (c.parse_certificate a.der)
    der ←
        or_fatal
          (c.create_certificate (leaf_template c (codes "wt-lab page") hosts d) parent key a.key)
    ok (record { chain = der ∷ a.der ∷ []; private_key = key }, a)

  leaf-IsPage :
      (hosts : List Bytes) (d : Draw c) (a : Authority c)
      → Prompt c d
      → (key : c.Key) (parent : c.Parent) (der : Bytes) → c.parse_certificate a.der ≡ some parent
      → c.create_certificate (leaf_template c (codes "wt-lab page") hosts d) parent key a.key
        ≡ some der
      → IsPage hosts a (record { chain = der ∷ a.der ∷ []; private_key = key })
  unfolding new_template
  leaf-IsPage hosts d a prompt key parent der p f = (
    der,
    record {
      template = leaf_template c (codes "wt-lab page") hosts d;
      parent = parent;
      signer = a.key;
      pinnable = leaf-IsPinnable c (codes "wt-lab page") hosts signs_data d prompt refl;
      for_hosts = refl;
      created = f;
      first = refl;
    },
    p,
    refl,
    refl,
  )

  under_ca-IsPage :
      (hosts : List Bytes) (d : Draw c) (a : Authority c) (m : KeyPair c × Authority c)
      → Prompt c d
      → under_ca hosts d a ≡ ok m
      → (a ≡ m.1) × IsPage hosts a m.0
  under_ca-IsPage hosts d a m prompt e = elim (Option-cases d.key) [
    | inl k ↦ cc (rw k at e)
    | inr (key, k) ↦ elim (Option-cases (c.parse_certificate a.der)) [
      | inl p ↦ cc (rw (k, p) at e)
      | inr (parent, p) ↦
          let t = leaf_template c (codes "wt-lab page") hosts d in
          elim (Option-cases (c.create_certificate t parent key a.key)) [
            | inl f ↦ cc (rw (k, p, f) at e)
            | inr (der, f) ↦
                let m_eq : m ≡ (record { chain = der ∷ a.der ∷ []; private_key = key }, a) =
                  cc (rw (k, p, f) at e) in
                subst (λ (m : KeyPair c × Authority c). (a ≡ m.1) × IsPage hosts a m.0) (sym m_eq)
                  (refl, leaf-IsPage hosts d a prompt key parent der p f)
          ]
    ]
  ]

  -- The page leaf is one of the same form, under the CA of the process.
  pub mint_page_chain-IsPage :
      (files : Files) (hosts : List Bytes) (ca : Draw c) (w : Writes) (d : Draw c)
      (m : KeyPair c × Authority c)
      → Prompt c d
      → mint_page_chain c files hosts ca w d ≡ ok m
      → (load_or_mint_ca c files ca w ≡ ok m.1) × IsPage hosts m.1 m.0
  unfolding mint_page_chain
  mint_page_chain-IsPage files hosts ca w d m prompt e =
      let (a, loaded, rest) = bind_ok (load_or_mint_ca c files ca w) (under_ca hosts d) m e in
      let (same, page) = under_ca-IsPage hosts d a m prompt rest in
      (
        loaded ∙ ap (λ (a : Authority c). ok a) same,
        subst (λ (a : Authority c). IsPage hosts a m.0) same page,
      )

  -- Two boots serve their pages under one CA: the page chain of a boot over the files that another one
  -- left, whatever it draws, ends in the same CA certificate, and its leaf is signed with the same key, is
  -- made for the hosts of its own boot's flag, and is of the form of a leaf that serves, valid for at most
  -- fourteen days. The first boot is one whose two files could be written, both succeed, and each reads the
  -- clock twice within a day. Nothing is said of whether the CA certificate, which is made for thirty days
  -- and loaded without a look at its dates, is still valid.
  pub mint_page_chain-trusted :
      (files : Files) (hosts hosts' : List Bytes) (ca ca' : Draw c) (w' : Writes) (d d' : Draw c)
      (m m' : KeyPair c × Authority c)
      → Prompt c d
      → Prompt c d'
      → mint_page_chain c files hosts ca both_written d ≡ ok m
      → mint_page_chain c m.1.files hosts' ca' w' d' ≡ ok m'
      → (m'.1 ≡ m.1) × IsPage hosts' m.1 m'.0
  mint_page_chain-trusted files hosts hosts' ca ca' w' d d' m m' prompt prompt' e e' =
      let (loaded, _) = mint_page_chain-IsPage files hosts ca both_written d m prompt e in
      let (loaded', page') = mint_page_chain-IsPage m.1.files hosts' ca' w' d' m' prompt' e' in
      let again = load_or_mint_ca-persists c files ca m.1 ca' w' loaded in
      let same : m'.1 ≡ m.1 = cc in
      (same, subst (λ (a : Authority c). IsPage hosts' a m'.0) same page')
