-- ===== src/Iptables/Setup/Twice.antt =====
-- The setup is not repeatable: NewChain refuses a chain that is there.
use teleskop.Common.{⊤, ◌≡◌, refl, ◌∙◌, ap, Option, none, some, List}
use teleskop.Go.Error.{Error, internal, status, Outcome, ok, err, panic}
use teleskop.Go.Text.{Text}
use teleskop.Iptables.Client.{IpTables, IsLawful, Rule, View, Acts, created, after_new_chain}
use teleskop.Iptables.Chain.{table_filter, chain_callisto_sg_fallback}
use teleskop.Iptables.Setup.{
  setup_chain, setup_with, setup_sg_fallback_chain, run_all, setup_default_security_group,
}
use teleskop.Iptables.Setup.Effect.{setup_lem}

module _ (client : IpTables) (laws : IsLawful client table_filter) where
  open client use {Host}
  open laws use {view}

  -- An error of the code Internal, with no chain changed.
  abbrev pub FailsInternal : View → Outcome ⊤ × Host → Type 0
  FailsInternal before (r, after) =
      (e : Error) × (r ≡ err (status internal "failed to create new chain: %+v" e))
      × (view after ≡ before)

  refused :
      (before : View) (name : Text) (rules : List Rule) (r : Outcome ⊤) (w : Host)
      → before name ≡ some rules
      → Acts before (after_new_chain name) r (view w)
      → (e : Error) × (r ≡ err e) × (view w ≡ before)
  unfolding after_new_chain
  refused before name rules (ok a) w found acts = absurd (created_never (before name) found acts)
    where
      created_never :
          (o : Option (List Rule)) → o ≡ some rules → created name before o ≡ some (view w) → ⊥
      created_never none e h = cc
      created_never (some rs) e h = cc
  refused before name rules (err e) w found acts = (e, refl, acts)
  refused before name rules panic w found acts = elim acts [ ]

  setup_present :
      (w : Host) (rules : List Rule)
      → view w chain_callisto_sg_fallback ≡ some rules
      → FailsInternal (view w) (setup_default_security_group client w)
  unfolding setup_default_security_group run_all setup_sg_fallback_chain setup_with setup_chain
  setup_present w rules found =
      let (r, w') = client.new_chain table_filter chain_callisto_sg_fallback w in
      let (e, failed, same) =
        refused (view w) chain_callisto_sg_fallback rules r w' found
          (laws.new_chain_law chain_callisto_sg_fallback w) in
      (e, rw failed, rw failed same)

  -- After a setup that returned no error, every further setup, on any host with the same chains,
  -- fails with the code Internal and changes no chain.
  pub setup_twice :
      (w w' : Host)
      → (setup_default_security_group client w).0 ≡ ok tt
      → view w' ≡ view (setup_default_security_group client w).1
      → FailsInternal (view w') (setup_default_security_group client w')
  setup_twice w w' done same = setup_present w' _ (
      ap (λ (v : View). v chain_callisto_sg_fallback) same
      ∙ (setup_lem client laws w done).fallback)
