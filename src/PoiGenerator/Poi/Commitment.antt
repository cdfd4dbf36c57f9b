-- ===== src/PoiGenerator/Poi/Commitment.antt =====
-- What a proof of intent commits to.
use agent_of_record.Common.{
  String, ◌≡◌, sym, ap, not, ◌||◌, none, some, arith, ◌==◌, nat_eq, string_eq, list_eq, option_eq,
  value_error, type_error, ok, raise_if, >>=-eq-ok,
}
use agent_of_record.CryptoCore.{Crypto, Bytes, hash_payload}
use agent_of_record.CryptoCore.Hex.{hex}
use agent_of_record.Json.{Json, str, one_field, is_dict}
use agent_of_record.LedgerCore.{Ledger, all_entries}
use agent_of_record.Merkle.{MerkleTree, build_merkle_tree, root}
use agent_of_record.PoiGenerator.AgentKeys.{agent_pubkey_id}
use agent_of_record.PoiGenerator.Models.{ProofOfIntent, validate_poi}
use agent_of_record.PoiGenerator.Poi.{Claims, poi_signing_hash, build_poi, sign_poi}

validate_poi-eq : (p : ProofOfIntent) {q : ProofOfIntent} → validate_poi p ≡ ok q → p ≡ q
unfolding validate_poi
validate_poi-eq p h = ground arith

module _ ⦃c : Crypto⦄ where
  -- The four digests are those of the prompts, of the action, and the root of the ledger.
  pub record Commits (poi : ProofOfIntent) (user_prompt system_prompt : String) (ledger : Ledger)
      (payload : Json) : Type 0 where
    pub tree : MerkleTree
    pub built : build_merkle_tree (all_entries ledger) ≡ ok tree
    pub top : Bytes
    pub top_of : root tree ≡ ok top
    pub context : poi.context_root ≡ hex top
    pub prompt : Bytes
    pub prompt_hashed : hash_payload (one_field "prompt" (str user_prompt)) ≡ ok prompt
    pub prompt_text : poi.user_prompt_hash ≡ hex prompt
    pub system : Bytes
    pub system_hashed : hash_payload (one_field "system_prompt" (str system_prompt)) ≡ ok system
    pub system_text : poi.system_prompt_hash ≡ hex system
    pub action : Bytes
    pub action_hashed : hash_payload payload ≡ ok action
    pub action_text : poi.action_payload_hash ≡ hex action

  -- A proof that `build_poi` returns has the digests of the user's prompt, of the system prompt and of
  -- the action, and the root of the ledger as it stands.
  pub build_poi-Commits :
      (user_prompt system_prompt : String) (ledger : Ledger) (payload : Json) (model_id : String)
      (claims : Claims) (timestamp nonce : String) (poi : ProofOfIntent)
      → build_poi user_prompt system_prompt ledger payload model_id claims timestamp nonce ≡ ok poi
      → Commits poi user_prompt system_prompt ledger payload
  unfolding build_poi
  build_poi-Commits user_prompt system_prompt ledger payload model_id claims timestamp nonce poi h =
      let (_, _, r1) =
        >>=-eq-ok
          (raise_if (user_prompt == "" || system_prompt == "" || model_id == "")
            (value_error "user_prompt, system_prompt, and model_id are required"))
          _ h in
      let (_, _, r2) =
        >>=-eq-ok
          (raise_if (not (is_dict payload)) (type_error "action_payload must be a dictionary")) _
          r1 in
      let (tree, et, r3) = >>=-eq-ok (build_merkle_tree (all_entries ledger)) _ r2 in
      let (top, er, r4) = >>=-eq-ok (root tree) _ r3 in
      let (prompt, ep, r5) = >>=-eq-ok (hash_payload (one_field "prompt" (str user_prompt))) _ r4 in
      let (system, es, r6) =
        >>=-eq-ok (hash_payload (one_field "system_prompt" (str system_prompt))) _ r5 in
      let (action, ea, r7) = >>=-eq-ok (hash_payload payload) _ r6 in
      let same = validate_poi-eq _ r7 in
      record {
        tree = tree;
        built = et;
        top = top;
        top_of = er;
        context = sym (ap (λ p. p.context_root) same);
        prompt = prompt;
        prompt_hashed = ep;
        prompt_text = sym (ap (λ p. p.user_prompt_hash) same);
        system = system;
        system_hashed = es;
        system_text = sym (ap (λ p. p.system_prompt_hash) same);
        action = action;
        action_hashed = ea;
        action_text = sym (ap (λ p. p.action_payload_hash) same);
      }

  -- Signing keeps the commitments.
  pub sign_poi-Commits :
      (poi signed : ProofOfIntent) (key : Bytes) (user_prompt system_prompt : String)
      (ledger : Ledger) (payload : Json)
      → sign_poi poi key ≡ ok signed
      → Commits poi user_prompt system_prompt ledger payload
      → Commits signed user_prompt system_prompt ledger payload
  unfolding sign_poi
  sign_poi-Commits poi signed key user_prompt system_prompt ledger payload h k =
      let (digest, ed, last) =
        >>=-eq-ok
          (poi_signing_hash
            (record poi { agent_pubkey_id = some (agent_pubkey_id key); agent_signature = none }))
          _ h in
      record {
        tree = k.tree;
        built = k.built;
        top = k.top;
        top_of = k.top_of;
        context = cc (last, k.context);
        prompt = k.prompt;
        prompt_hashed = k.prompt_hashed;
        prompt_text = cc (last, k.prompt_text);
        system = k.system;
        system_hashed = k.system_hashed;
        system_text = cc (last, k.system_text);
        action = k.action;
        action_hashed = k.action_hashed;
        action_text = cc (last, k.action_text);
      }

  -- The claims of a proof.
  pub record HasClaims (poi : ProofOfIntent) (claims : Claims) : Type 0 where
    pub agent_type : poi.agent_type ≡ claims.agent_type
    pub agent_id : poi.agent_id ≡ claims.agent_id
    pub action_type : poi.action_type ≡ claims.action_type
    pub policy_decision : poi.policy_decision ≡ claims.policy_decision

  -- A proof that `build_poi` returns has the claims that it was given, and signing keeps them.
  pub build_poi-HasClaims :
      (user_prompt system_prompt : String) (ledger : Ledger) (payload : Json) (model_id : String)
      (claims : Claims) (timestamp nonce : String) (poi : ProofOfIntent)
      → build_poi user_prompt system_prompt ledger payload model_id claims timestamp nonce ≡ ok poi
      → HasClaims poi claims
  unfolding build_poi
  build_poi-HasClaims user_prompt system_prompt ledger payload model_id claims timestamp nonce poi
        h =
      let (_, _, r1) =
        >>=-eq-ok
          (raise_if (user_prompt == "" || system_prompt == "" || model_id == "")
            (value_error "user_prompt, system_prompt, and model_id are required"))
          _ h in
      let (_, _, r2) =
        >>=-eq-ok
          (raise_if (not (is_dict payload)) (type_error "action_payload must be a dictionary")) _
          r1 in
      let (tree, _, r3) = >>=-eq-ok (build_merkle_tree (all_entries ledger)) _ r2 in
      let (_, _, r4) = >>=-eq-ok (root tree) _ r3 in
      let (_, _, r5) = >>=-eq-ok (hash_payload (one_field "prompt" (str user_prompt))) _ r4 in
      let (_, _, r6) =
        >>=-eq-ok (hash_payload (one_field "system_prompt" (str system_prompt))) _ r5 in
      let (_, _, r7) = >>=-eq-ok (hash_payload payload) _ r6 in
      let same = validate_poi-eq _ r7 in
      record {
        agent_type = sym (ap (λ p. p.agent_type) same);
        agent_id = sym (ap (λ p. p.agent_id) same);
        action_type = sym (ap (λ p. p.action_type) same);
        policy_decision = sym (ap (λ p. p.policy_decision) same);
      }

  pub sign_poi-HasClaims :
      (poi signed : ProofOfIntent) (key : Bytes) (claims : Claims)
      → sign_poi poi key ≡ ok signed
      → HasClaims poi claims
      → HasClaims signed claims
  unfolding sign_poi
  sign_poi-HasClaims poi signed key claims h k =
      let (digest, ed, last) =
        >>=-eq-ok
          (poi_signing_hash
            (record poi { agent_pubkey_id = some (agent_pubkey_id key); agent_signature = none }))
          _ h in
      record {
        agent_type = cc (last, k.agent_type);
        agent_id = cc (last, k.agent_id);
        action_type = cc (last, k.action_type);
        policy_decision = cc (last, k.policy_decision);
      }
