-- ===== src/Client/Multi/Perform.antt =====
-- corRestClientMultiCreate, ...Add and ...Perform of corRestClientMulti.c: the entries, the loop over
-- what becomes ready, and the cleanup behind it.
pub mod Settled
pub mod Ended
pub mod Released
mod Tests
use cor_rest.Base.{
  ltb, leb, if◌then◌else◌, Bytes, length, ℕ, zero, suc, ◌+◌, ◌*◌, Bool, false, Option, none, some,
  List, [], ◌∷◌, ◌++◌,
}
use cor_rest.Verb.{Verb}
use cor_rest.Client.Address.{client_url_parse, Address}
use cor_rest.Client.Proxy.{Proxies}
use cor_rest.Client.Follow.{
  gives_back, ClientError, err_url, err_connect, err_timeout, err_recv, err_alloc, Act, destroys,
}
use cor_rest.Client.Multi.{
  Turn, goes_on, fails_with, start_connect, handle_event, MultiState, starting, done, Entry, Multi,
  Start, Ready,
}
use cor_rest.Client.Multi.Buffer.{build_send_buf}

-- corRestClientMultiCreate and corRestClientMultiMaxResponse
unfoldable pub multi_create : ℕ → Multi
multi_create most = record { entries = []; done_count = 0; max_response_bytes = most }

abbrev pub no_address : Address
no_address = record { scheme = []; host = []; port = 0; path = [] }

abbrev pub new_entry : ℕ → Verb → Option Bytes → List (Bytes × Bytes) → Bytes → Entry
new_entry i verb url headers body = record {
  state = starting;
  number = i;
  url = url;
  text = record { text_verb = verb; to_address = no_address; text_headers = headers };
  body = body;
  conn = none;
  buf = [];
  buf_size = 0;
  keep_alive = false;
  send_len = 0;
  send_pos = 0;
  error = none;
  answer = none;
  is_from_pool = false;
  retried = false;
}

-- corRestClientMultiAdd, `none` for -1; the headers are taken to find their space.
unfoldable pub multi_add :
    ℕ → Verb → Option Bytes → List (Bytes × Bytes) → Bytes → Multi → Option Multi
multi_add capacity verb url headers body m =
    if leb capacity (length m.entries)
    then none
    else some (record m {
      entries = m.entries ++ new_entry (length m.entries) verb url headers body ∷ [];
    })

-- What the engine runs in: memory, settings, and what each entry meets at its start
pub record Around : Type 0 where
  pub grow : ℕ → Bool
  pub room : ℕ → Bool
  pub buf_space : ℕ → Bool
  pub proxies : Proxies
  pub agent : Bytes
  pub starts : ℕ → Start

-- An entry whose buffer is built: its connection
abbrev pub begin_connect : Start → Bytes → Entry → Turn
unfolding start_connect
begin_connect s text e =
    let (acts, e', good) =
      start_connect s (4 * e.number) (record e { send_len = length text; send_pos = 0 }) in
    if good then (acts, e', 0) else (acts, record e' { error = some err_connect; state = done }, 1)

-- The first loop of corRestClientMultiPerform, on one entry
unfoldable pub begin_entry : Around → Entry → Turn
unfolding client_url_parse build_send_buf
begin_entry a e =
    let (to, good) = client_url_parse e.url e.text.to_address in
    let e' = record e { text = record e.text { to_address = to } } in
    let rest : Turn =
      elim (build_send_buf (a.buf_space e.number) a.proxies a.agent e'.text e.body) [
        | none ↦ fails_with err_alloc e'
        | some text ↦ begin_connect (a.starts e.number) text e'
      ] in
    if good then rest else fails_with err_url e'

-- A step for each entry
unfoldable pub for_each : (Entry → Turn) → List Entry → List Act × List Entry × ℕ
for_each f [] = ([], [], 0)
for_each f (e ∷ es) =
    let (acts, e', n) = f e in
    let (more, es', ns) = for_each f es in (acts ++ more, e' ∷ es', n + ns)

-- A step for the entry at an index
unfoldable pub at_index : ℕ → (Entry → Turn) → List Entry → List Act × List Entry × ℕ
at_index i f [] = ([], [], 0)
at_index zero f (e ∷ es) = let (acts, e', n) = f e in (acts, e' ∷ es, n)
at_index (suc i) f (e ∷ es) = let (acts, es', n) = at_index i f es in (acts, e ∷ es', n)

abbrev pub with_entries : List Act × List Entry × ℕ → Multi → List Act × Multi
with_entries (acts, es, n) m = (acts, record m { entries = es; done_count = m.done_count + n })

-- The deadline, or a wait that is refused: every request that is still open ends.
abbrev pub ends_open : MultiState → ClientError → Entry → Turn
ends_open done err e = goes_on e
ends_open _ err e = fails_with err e

abbrev pub gives_up_on : ClientError → Entry → Turn
gives_up_on err e = ends_open e.state err e

-- A round of the event loop
pub data Round : Type 0 where
  time_over no_wait : Round
  turns : List (ℕ × Ready) → Round

unfoldable pub handle_events : Around → List (ℕ × Ready) → Multi → List Act × Multi
unfolding at_index handle_event
handle_events a [] m = ([], m)
handle_events a ((i, r) ∷ rs) m =
    let (acts, m') =
      with_entries (at_index i (handle_event a.grow a.room m.max_response_bytes r) m.entries) m in
    let (more, m'') = handle_events a rs m' in (acts ++ more, m'')

-- The event loop, over the rounds that come; it stands where they run out.
unfoldable pub run_rounds : Around → List Round → Multi → List Act × Multi
unfolding handle_events for_each
run_rounds a [] m = ([], m)
run_rounds a (time_over ∷ rs) m =
    if ltb m.done_count (length m.entries)
    then with_entries (for_each (gives_up_on err_timeout) m.entries) m
    else ([], m)
run_rounds a (no_wait ∷ rs) m =
    if ltb m.done_count (length m.entries)
    then with_entries (for_each (gives_up_on err_recv) m.entries) m
    else ([], m)
run_rounds a (turns evs ∷ rs) m =
    let (acts, m') = handle_events a evs m in
    let (more, m'') = run_rounds a rs m' in
    if ltb m.done_count (length m.entries) then (acts ++ more, m'') else ([], m)

-- The cleanup of an entry
abbrev pub leaves_conn : Option ClientError → Bool → Option ℕ → List Act
leaves_conn error keep none = []
leaves_conn none keep (some k) = gives_back k keep ∷ []
leaves_conn (some err) keep (some k) = destroys k ∷ []

abbrev pub clean_up : Entry → Turn
clean_up e = (leaves_conn e.error e.keep_alive e.conn, record e { conn = none }, 0)

-- corRestClientMultiPerform
unfoldable pub multi_perform : Around → List Round → Multi → List Act × Multi
unfolding begin_entry for_each run_rounds
multi_perform a rounds m =
    let (begun, m1) = with_entries (for_each (begin_entry a) m.entries) m in
    let (ran, m2) = run_rounds a rounds m1 in
    let (cleaned, m3) = with_entries (for_each clean_up m2.entries) m2 in
    (begun ++ (ran ++ cleaned), m3)
