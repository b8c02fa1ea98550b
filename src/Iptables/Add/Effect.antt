-- ===== src/Iptables/Add/Effect.antt =====
-- What the calls of addSecurityGroup that succeed have done to the chains, over any lawful client.
use mathlib.Core.Option.{some-injective}
use mathlib.Core.Path.{subst}
use teleskop.Common.{
  ℕ, suc, ◌+◌, ◌≡◌, refl, ap, ◌∙◌, sym, false, Option, none, some, List, [], ◌∷◌, ◌++◌,
  append_assoc, append-nil, arith, length, length-append, eq_bytes,
}
use teleskop.Go.Error.{Error, ok}
use teleskop.Go.Text.{Text}
use teleskop.Iptables.Client.{
  IpTables, IsLawful, Rule, View, put, insert_at, inserted, after_new_chain, after_insert,
}
use teleskop.Iptables.Chain.{table_filter}
use teleskop.Iptables.Effect.{
  ◌then_effect◌, bind_effect-some, Succeeds, Succeeds-pure, Succeeds-bind, Succeeds-on_error,
  put_self, put_ne, after_new_chain-some,
}
use teleskop.Iptables.Add.{ignore, abandon, insert_from, insert_rules, new_chain_with}
use teleskop.Iptables.Setup.Effect.{setup_chain-Succeeds}

-- A chain that has been given rules in front of its own.
pub record IsPrepended (chain : Text) (rules : List Rule) (v v' : View) : Type 0 where
  pub old : List Rule
  pub found : v chain ≡ some old
  pub prepended : v' chain ≡ some (rules ++ old)
  pub rest : (k : Text) → eq_bytes k chain ≡ false → v' k ≡ v k

-- A new chain that holds exactly the rules.
pub record IsNew (chain : Text) (rules : List Rule) (v v' : View) : Type 0 where
  pub absent : v chain ≡ none
  pub filled : v' chain ≡ some rules
  pub rest : (k : Text) → eq_bytes k chain ≡ false → v' k ≡ v k

-- The rules inserted one behind the other, from a position on.
pub insert_effect : Text → ℕ → List Rule → View → Option View
insert_effect chain pos [] = some
insert_effect chain pos (rule ∷ rules) =
    after_insert chain pos rule then_effect insert_effect chain (pos + 1) rules

insert_at_end :
    (done old : List Rule) (rule : Rule)
    → insert_at (suc (length done)) rule (done ++ old) ≡ some (done ++ rule ∷ old)
unfolding insert_at
insert_at_end [] old rule = refl
insert_at_end (r ∷ done) old rule = rw (insert_at_end done old rule)

inserted-some :
    (chain : Text) (v : View) (rule : Rule) (done old : List Rule) (o : Option (List Rule))
    {v' : View}
    → o ≡ some (done ++ old)
    → inserted chain v (suc (length done)) rule o ≡ some v'
    → v' ≡ put v chain (some (done ++ rule ∷ old))
inserted-some chain v rule done old none e h = cc
inserted-some chain v rule done old (some rules) e h =
    sym (some-injective _ _ (sym (stored_lem) ∙ h))
  where
    stored_lem :
        inserted chain v (suc (length done)) rule (some rules)
        ≡ some (put v chain (some (done ++ rule ∷ old)))
    stored_lem = rw (some-injective _ _ e) (rw (insert_at_end done old rule))

insert_step :
    (chain : Text) (pos : ℕ) (v u : View) (rule : Rule) (done old : List Rule)
    → pos ≡ suc (length done)
    → v chain ≡ some (done ++ old)
    → after_insert chain pos rule v ≡ some u
    → u ≡ put v chain (some (done ++ rule ∷ old))
unfolding after_insert
insert_step chain pos v u rule done old at found h =
    inserted-some chain v rule done old (v chain) found
      (subst (λ (p : ℕ). inserted chain v p rule (v chain) ≡ some u) at h)

insert_effect-some :
    (chain : Text) (rules done old : List Rule) (pos : ℕ) (v v' : View)
    → pos ≡ suc (length done)
    → v chain ≡ some (done ++ old)
    → insert_effect chain pos rules v ≡ some v'
    → (v' chain ≡ some (done ++ (rules ++ old)))
      × ((k : Text) → eq_bytes k chain ≡ false → v' k ≡ v k)
unfolding insert_effect
insert_effect-some chain [] done old pos v v' at found h =
    let same : v ≡ v' = some-injective v v' h in
    (ap (λ (x : View). x chain) (sym same) ∙ found, λ k ne. ap (λ (x : View). x k) (sym same))
insert_effect-some chain (rule ∷ rules) done old pos v v' at found h =
    let (u, e, f) =
      bind_effect-some (after_insert chain pos rule v) (insert_effect chain (pos + 1) rules) v' h in
    let made = insert_step chain pos v u rule done old at found e in
    let (end, others) =
      insert_effect-some chain rules (done ++ rule ∷ []) old (pos + 1) u v'
        (omega (arith, length-append {0} done (rule ∷ [])))
        (rw made (put_self v chain _) ∙ ap some (sym (append_assoc done (rule ∷ []) old))) f in
    (
      end ∙ ap some (append_assoc done (rule ∷ []) (rules ++ old)),
      λ k ne. others k ne ∙ rw made (put_ne v chain k _ ne),
    )

-- Rules inserted into a missing chain have no effect.
insert_effect-missing :
    (chain : Text) (pos : ℕ) (rule : Rule) (rules : List Rule) (v v' : View)
    → insert_effect chain pos (rule ∷ rules) v ≡ some v'
    → (old : List Rule) × (v chain ≡ some old)
unfolding insert_effect after_insert
insert_effect-missing chain pos rule rules v v' h =
    let (u, e, f) =
      bind_effect-some (inserted chain v pos rule (v chain)) (insert_effect chain (pos + 1) rules)
        v' h in
    present (v chain) e
  where
    present :
        (o : Option (List Rule)) {u : View}
        → inserted chain v pos rule o ≡ some u
        → (old : List Rule) × (o ≡ some old)
    present none e = cc
    present (some old) e = (old, refl)

pub insert_effect-IsPrepended :
    (chain : Text) (rule : Rule) (rules : List Rule) (v v' : View)
    → insert_effect chain 1 (rule ∷ rules) v ≡ some v'
    → IsPrepended chain (rule ∷ rules) v v'
insert_effect-IsPrepended chain rule rules v v' h =
    let (old, found) = insert_effect-missing chain 1 rule rules v v' h in
    let (prepended, rest) = insert_effect-some chain (rule ∷ rules) [] old 1 v v' refl found h in
    record { old = old; found = found; prepended = prepended; rest = rest }

pub then_effect-IsNew :
    (chain : Text) (rules : List Rule) (v v' : View)
    → (after_new_chain chain then_effect insert_effect chain 1 rules) v ≡ some v'
    → IsNew chain rules v v'
then_effect-IsNew chain rules v v' h =
    let (u, e, f) = bind_effect-some (after_new_chain chain v) (insert_effect chain 1 rules) v' h in
    let (absent, made) = after_new_chain-some chain v e in
    let (filled, rest) =
      insert_effect-some chain rules [] [] 1 u v' refl (rw made (put_self v chain _)) f in
    record {
      absent = absent;
      filled = filled ∙ ap some (append-nil rules);
      rest = λ k ne. rest k ne ∙ rw made (put_ne v chain k _ ne);
    }

module _ (client : IpTables) (laws : IsLawful client table_filter) where
  open client use {Host}
  open laws use {view, insert_law}

  abandon_fails : (chain : Text) (e : Error) (w : Host) → (abandon client chain e w).0 ≡ ok tt → ⊥
  unfolding abandon ignore
  abandon_fails chain e w h = ground arith

  insert_from-Succeeds :
      (chain : Text) (pos : ℕ) (rules : List Rule)
      → Succeeds view (insert_from client chain pos rules) (insert_effect chain pos rules)
  unfolding insert_from insert_effect
  insert_from-Succeeds chain pos [] = Succeeds-pure
  insert_from-Succeeds chain pos (rule ∷ rules) =
      Succeeds-on_error _ _ _ _ _ (insert_law chain pos rule) (abandon_fails chain)
        (insert_from-Succeeds chain (pos + 1) rules)

  pub insert_rules-Succeeds :
      (chain : Text) (rules : List Rule)
      → Succeeds view (insert_rules client chain rules) (insert_effect chain 1 rules)
  unfolding insert_rules
  insert_rules-Succeeds chain rules = insert_from-Succeeds chain 1 rules

  pub new_chain_with-Succeeds :
      (chain : Text) (rules : List Rule)
      → Succeeds view
          (new_chain_with client chain rules)
          (after_new_chain chain then_effect insert_effect chain 1 rules)
  unfolding new_chain_with
  new_chain_with-Succeeds chain rules =
      Succeeds-bind _ _ _ _ (setup_chain-Succeeds client laws chain)
        (insert_rules-Succeeds chain rules)
