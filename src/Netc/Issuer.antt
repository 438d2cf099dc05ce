-- ===== src/Netc/Issuer.antt =====
-- NETC_Get_SSL_ServiceCertIssuerName.
use make_down_file.Prelude.{ℕ, zero, suc, Option, none, some, List, [], ◌∷◌, last?, strlen}
use make_down_file.Run.{pure, ◌>>=◌}
use make_down_file.Netc.World.{common_name, organizational_unit_name, Lib, M, from_option}
use make_down_file.Netc.Text.{netc_ssl_x509_extrat_text_by_nid}

module _ (lib : Lib) where
  -- The issuer's common name, or its unit if that text is empty. The status is ignored; the text is
  -- read up to its terminator, which is undefined if it has none.
  unfoldable pub issuer_text : ℕ → ℕ → List ℕ → ℕ → M (List ℕ)
  unfolding from_option netc_ssl_x509_extrat_text_by_nid
  issuer_text fuel name issuer size = do
    (result, named) ←
        netc_ssl_x509_extrat_text_by_nid lib fuel (some name) common_name (some issuer) size
    text ← from_option named
    n ← from_option (strlen text)
    elim n [
      | suc k ↦ pure text
      | zero ↦ (do
        (result2, unit) ←
            netc_ssl_x509_extrat_text_by_nid lib fuel (some name) organizational_unit_name
              (some text) size
        from_option unit)
    ]

  -- `chain` is what SSL_get_peer_cert_chain gives. The two buffers are returned anew; NULL pointers
  -- are left out.
  unfoldable pub netc_get_ssl_service_cert_issuer_name :
      ℕ → Option (List ℕ) → List ℕ → List ℕ → ℕ → M (List ℕ × List ℕ)
  unfolding issuer_text
  netc_get_ssl_service_cert_issuer_name fuel chain issuer sub zero = pure (issuer, sub)
  netc_get_ssl_service_cert_issuer_name fuel none issuer sub (suc room) = pure (issuer, sub)
  netc_get_ssl_service_cert_issuer_name fuel (some []) issuer sub (suc room) = pure (issuer, sub)
  netc_get_ssl_service_cert_issuer_name fuel (some (first ∷ rest)) issuer sub (suc room) = do
    last_cert ← from_option (last? (first ∷ rest))
    text ← issuer_text fuel (lib.issuer_name last_cert) issuer (suc room)
    pure (text, lib.get_text_by_nid (lib.subject_name first) sub)
