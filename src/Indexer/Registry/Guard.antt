-- ===== src/Indexer/Registry/Guard.antt =====
-- `applyFacts`, and the two ways a contract comes in: `registerCreatedContract` and `ensureContract`.
use beefy_envio_balances_ind.Common.{
  ℕ, Bool, true, false, not, ◌&&◌, ◌||◌, Option, none, some, List, [], ◌∷◌, if◌then◌else◌, Text,
  map, get_or,
}
use beefy_envio_balances_ind.Common.Dict.{lookup}
use beefy_envio_balances_ind.Indexer.Event.{
  RawEvent, as_hex, ContractKey-discrete, contract_id, block_timestamp,
}
use beefy_envio_balances_ind.Indexer.Store.{
  Contract, ContractKind, vault, clm_manager, unknown, ok, partial,
}
use beefy_envio_balances_ind.Indexer.Registry.{
  LinkRelation, vault_want, Token, Registry, Effects, ReadLink, is_kind, is_relation,
  is_share_token, is_non_erc20_share, is_token_relation, read_facts,
}
use beefy_envio_balances_ind.Indexer.Registry.Facts.{
  read_token, write_token, write_read_link, needs_facts, is_product, staked_relation, set_contract,
  complete_price_facts,
}

-- A link with the row of its token, for a link to a token
pub record LinkRead : Type 0 where
  pub link : ReadLink
  pub token : Option (Token × Bool)

-- The rows are read before any is written, as the reads of a `Promise.all` are.
abbrev pub read_link_token : Effects → ℕ → Registry → ReadLink → LinkRead
read_link_token fx chain reg link = record {
  link = link;
  token = elim link.to [
    | none ↦ none
    | some to ↦
        if is_token_relation link.relation
        then some (read_token fx chain to false true reg)
        else none
  ];
}

abbrev pub read_own_token : Effects → ℕ → Registry → Contract → Option (Token × Bool)
read_own_token fx chain reg contract =
    if is_share_token contract.kind
    then some (read_token fx chain contract.address true true reg)
    else none

abbrev pub write_read : ℕ → Text → Option (Token × Bool) → Registry → Registry
write_read chain address none reg = reg
write_read chain address (some r) reg = write_token chain address r reg

unfoldable pub write_link_tokens : ℕ → List LinkRead → Registry → Registry
write_link_tokens chain [] reg = reg
write_link_tokens chain (l ∷ ls) reg = elim l.link.to [
  | none ↦ write_link_tokens chain ls reg
  | some to ↦ write_link_tokens chain ls (write_read chain to l.token reg)
]

unfoldable pub write_links : Contract → ℕ → ℕ → List ReadLink → Registry → Registry
write_links contract block timestamp [] reg = reg
write_links contract block timestamp (l ∷ ls) reg = elim l.to [
  | none ↦ write_links contract block timestamp ls reg
  | some to ↦
      write_links contract block timestamp ls
        (write_read_link contract block timestamp l.relation to reg)
]

-- the items of `tokensRead`
abbrev own_read : ContractKind → Option (Token × Bool) → Bool
own_read kind none = true
own_read kind (some (t, _)) = t.metadata_ok || is_non_erc20_share kind

abbrev link_read : LinkRead → Bool
link_read l = elim l.link.to [
  | none ↦ true
  | some _ ↦
      not (is_token_relation l.link.relation)
      || elim l.token [ none ↦ false | some (t, _) ↦ t.metadata_ok ]
]

abbrev found : ReadLink → Bool
found l = elim l.to [ none ↦ false | some _ ↦ true ]

-- every link is found, and every token of them read
unfoldable pub is_complete : ContractKind → Option (Token × Bool) → List LinkRead → Bool
is_complete kind own [] = own_read kind own
is_complete kind own (l ∷ ls) = found l.link && link_read l && is_complete kind own ls

-- the link that names the product
abbrev names_product : ContractKind → LinkRelation → Bool
names_product kind relation =
    if is_kind kind vault
    then is_relation relation vault_want
    else elim (staked_relation kind) [ none ↦ false | some r ↦ is_relation relation r ]

unfoldable pub find_link : (LinkRelation → Bool) → List LinkRead → Option LinkRead
find_link test [] = none
find_link test (l ∷ ls) = if test l.link.relation then some l else find_link test ls

abbrev decimals_of : Option (Token × Bool) → Option ℕ
decimals_of none = none
decimals_of (some (t, _)) = t.decimals

-- `a ?? b`
abbrev pub first_of {ℓ} : {A : Type ℓ} → Option A → Option A → Option A
first_of none b = b
first_of (some a) b = some a

abbrev product_of : Contract → Option LinkRead → Option Text
product_of contract linked =
    if is_product contract.kind then some contract.address else elim linked [
      | none ↦ none
      | some l ↦ elim l.link.to [ none ↦ none | some to ↦ some (as_hex to) ]
    ]

abbrev price_decimals_of : ContractKind → Option (Token × Bool) → Option LinkRead → Option ℕ
price_decimals_of kind own linked =
    if is_kind kind vault
    then elim linked [ none ↦ none | some l ↦ decimals_of l.token ]
    else if is_kind kind clm_manager
    then decimals_of own
    else none

-- the row with the facts of this read; no fact of an earlier read is forgotten
unfoldable pub with_facts : RawEvent → Contract → Option (Token × Bool) → List LinkRead → Contract
with_facts event contract own reads =
    let linked = find_link (names_product contract.kind) reads in
    let price_decimals = price_decimals_of contract.kind own linked in
    record contract {
      facts_block = some event.block_number;
      facts_status = some (if is_complete contract.kind own reads then ok else partial);
      product_address = first_of (product_of contract linked) contract.product_address;
      price_decimals = first_of price_decimals contract.price_decimals;
      product_kind = elim price_decimals [
        | none ↦ contract.product_kind
        | some _ ↦ some contract.kind
      ];
    }

unfoldable pub apply_facts : Effects → RawEvent → Contract → Registry → Contract × Registry
apply_facts fx event contract reg =
    let chain = event.chain_id in
    let links = read_facts fx contract.kind contract.address in
    let own = read_own_token fx chain reg contract in
    let reads = map (read_link_token fx chain reg) links in
    let stored = write_link_tokens chain reads (write_read chain contract.address own reg) in
    let linked =
      write_links contract (get_or contract.created_block event.block_number)
        (get_or contract.created_timestamp (block_timestamp event)) links stored in
    let updated = with_facts event contract own reads in
    complete_price_facts chain updated (set_contract updated linked)

abbrev pub with_needed_facts : Effects → RawEvent → Contract → Registry → Contract × Registry
with_needed_facts fx event contract reg =
    if needs_facts contract event.block_number
    then apply_facts fx event contract reg
    else (contract, reg)

abbrev pub created_row : RawEvent → Text → ContractKind → Option Text → Contract
created_row event address kind deploy_name = record {
  id = contract_id event.chain_id address;
  address = as_hex address;
  kind = kind;
  factory = some (as_hex event.src_address);
  created_block = some event.block_number;
  created_timestamp = some (block_timestamp event);
  created_trx_hash = some (as_hex event.trx_hash);
  deploy_name = deploy_name;
  facts_block = none;
  facts_status = none;
  product_address = none;
  price_decimals = none;
  product_kind = none;
}

unfoldable pub register_created_contract :
    Effects → RawEvent → Text → ContractKind → Option Text → Registry → Contract × Registry
register_created_contract fx event address kind deploy_name reg =
    let create = λ (name : Option Text).
      (let contract = created_row event address kind name in
        let r : Contract × Registry =
          with_needed_facts fx event contract (set_contract contract reg) in
        r) in
    elim (lookup ContractKey-discrete (contract_id event.chain_id address) reg.contracts) [
      | none ↦ create deploy_name
      | some existing ↦
          if not (is_kind existing.kind unknown) || is_kind kind unknown
          then (existing, reg)
          else create (first_of deploy_name existing.deploy_name)
    ]

-- the row of an address that is listed in config.yaml, at its first event
abbrev pub listed_row : RawEvent → ContractKind → Contract
listed_row event kind = record {
  id = contract_id event.chain_id event.src_address;
  address = as_hex event.src_address;
  kind = kind;
  factory = none;
  created_block = none;
  created_timestamp = none;
  created_trx_hash = none;
  deploy_name = none;
  facts_block = none;
  facts_status = none;
  product_address = none;
  price_decimals = none;
  product_kind = none;
}

abbrev pub with_current_facts : Effects → RawEvent → Contract → Registry → Contract × Registry
with_current_facts fx event contract reg =
    if needs_facts contract event.block_number
    then apply_facts fx event contract reg
    else complete_price_facts event.chain_id contract reg

-- `is_blacklisted` is the table of lib/blacklist.ts.
unfoldable pub ensure_contract :
    (ℕ → Text → Bool) → Effects → RawEvent → ContractKind → Registry → Option Contract × Registry
ensure_contract is_blacklisted fx event kind reg =
    let guarded =
      λ (r : Contract × Registry). (let o : Option Contract × Registry = (some r.0, r.1) in o) in
    if is_blacklisted event.chain_id event.src_address
    then (none, reg)
    else elim (lookup ContractKey-discrete (contract_id event.chain_id event.src_address)
        reg.contracts) [
          | none ↦ guarded (with_current_facts fx event (listed_row event kind) reg)
          | some existing ↦
              if is_kind existing.kind kind
              then guarded (with_current_facts fx event existing reg)
              else (none, reg)
        ]
