-- ===== src/Installation/ClientHistory.antt =====
-- What a client integration must have gone through to be in its state.
use skillwire.Base.{
  ◌>>=◌, List, ◌≡◌, ◌∷◌, Result, ◌++◌, [], true, ok, append_assoc, Bool-cases, inl, sym, inr,
  append-nil, refl, subst, >>=-eq-ok,
}
use skillwire.Installation.ClientState.{
  ClientState, planned, credential_stored, mcp_registered, adapter_installed, verified,
  external_verified, compensating, failed, removed, retained_external, ClientIntegration,
  client_transitions, includes_state, transition_client_integration,
}

-- The states that an integration goes through, each by a transition that returns.
unfoldable pub run : ClientIntegration → List ClientState → Result ClientIntegration
run i [] = ok i
run i (s ∷ ss) = do next ← transition_client_integration i s; run next ss

transition-eq-ok :
    (i k : ClientIntegration) (s : ClientState)
    → transition_client_integration i s ≡ ok k
    → (includes_state (client_transitions i.state) s ≡ true) × (k ≡ record i { state = s })
unfolding transition_client_integration
transition-eq-ok i k s e = elim (Bool-cases (includes_state (client_transitions i.state) s)) [
  | inl q ↦ (q, cc (rw q at e))
  | inr q ↦ absurd (cc (rw q at e))
]

-- The installation steps done before a state.
abbrev pub done_before : ClientState → List ClientState
done_before credential_stored = credential_stored ∷ []
done_before mcp_registered = credential_stored ∷ mcp_registered ∷ []
done_before adapter_installed = credential_stored ∷ mcp_registered ∷ adapter_installed ∷ []
done_before verified = credential_stored ∷ mcp_registered ∷ adapter_installed ∷ verified ∷ []
done_before removed =
    credential_stored ∷ mcp_registered ∷ adapter_installed ∷ verified ∷ removed ∷ []
done_before _ = []

-- The states seen end in the steps done before the state.
abbrev pub HasDone : ClientState → List ClientState → Type 0
HasDone s seen = (earlier : List ClientState) × (seen ≡ earlier ++ done_before s)

HasDone-step :
    (s t : ClientState) (seen : List ClientState)
    → includes_state (client_transitions s) t ≡ true
    → HasDone s seen
    → HasDone t (seen ++ t ∷ [])
unfolding client_transitions
HasDone-step planned credential_stored seen h (e, p) = (seen, refl)
HasDone-step credential_stored mcp_registered seen h (e, p) =
    (e, rw p (append_assoc e (done_before credential_stored) (mcp_registered ∷ [])))
HasDone-step mcp_registered adapter_installed seen h (e, p) =
    (e, rw p (append_assoc e (done_before mcp_registered) (adapter_installed ∷ [])))
HasDone-step adapter_installed verified seen h (e, p) =
    (e, rw p (append_assoc e (done_before adapter_installed) (verified ∷ [])))
HasDone-step verified removed seen h (e, p) =
    (e, rw p (append_assoc e (done_before verified) (removed ∷ [])))
HasDone-step s compensating seen h d = (seen ++ compensating ∷ [], sym (append-nil _))
HasDone-step s failed seen h d = (seen ++ failed ∷ [], sym (append-nil _))
HasDone-step s planned seen h d = (seen ++ planned ∷ [], sym (append-nil _))
HasDone-step s external_verified seen h d = (seen ++ external_verified ∷ [], sym (append-nil _))
HasDone-step s retained_external seen h d = (seen ++ retained_external ∷ [], sym (append-nil _))
HasDone-step s t seen h d = absurd (cc h)

run-HasDone_from :
    (i k : ClientIntegration) (seen ss : List ClientState)
    → HasDone i.state seen
    → run i ss ≡ ok k
    → HasDone k.state (seen ++ ss)
unfolding run
run-HasDone_from i k seen [] d e =
    let p : i ≡ k = cc e in rw append-nil (subst (λ x. HasDone x.state seen) p d)
run-HasDone_from i k seen (s ∷ ss) d e =
    let (next, e1, e2) = >>=-eq-ok (transition_client_integration i s) (λ n. run n ss) e in
    let (allowed, same) = transition-eq-ok i next s e1 in
    let here : HasDone next.state (seen ++ s ∷ []) =
      subst (λ x. HasDone x.state (seen ++ s ∷ [])) (sym same)
        (HasDone-step i.state s seen allowed d) in
    rw append_assoc at (run-HasDone_from next k (seen ++ s ∷ []) ss here e2)

-- A sequence of transitions from "planned" that ends in "verified" ends with exactly: the credential
-- is stored, the MCP entry registered, the adapter installed, and then the client verified. One that
-- ends in "removed" ends with these and the removal, and so for the states in between.
pub run-done_before :
    (i k : ClientIntegration) (ss : List ClientState)
    → i.state ≡ planned
    → run i ss ≡ ok k
    → (earlier : List ClientState) × (ss ≡ earlier ++ done_before k.state)
run-done_before i k ss start e = run-HasDone_from i k [] ss ([], rw start refl) e
