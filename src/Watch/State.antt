-- ===== src/Watch/State.antt =====
-- src/local/watch/model.rs: the state of the watch, its scopes, and the indices into its lists.
use zodex.Common.{
  ℕ, suc, ◌+◌, ◌-◌, ◌*◌, ◌^◌, Bool, true, false, not, ◌&&◌, ◌||◌, List, [], ◌∷◌, Option, none, some,
  ◌==◌, if◌then◌else◌, is_none, min, Bytes, eq_bytes,
}
use zodex.Watch.Records.{PresentationRecord, WatchCard, eq_option}

abbrev pub max_live_output_chars : ℕ
max_live_output_chars = 32 * 1024

abbrev pub transient_notice_duration : ℕ
transient_notice_duration = 5

pub record ApiAgent : Type 0 where
  pub id : Bytes
  pub workdirs : List Bytes

pub record WatchOptions : Type 0 where
  pub agent : Option Bytes
  pub all : Bool

pub data WatchScope : Type 0 where
  waiting picker all_agents unattributed : WatchScope
  agent_scope : Bytes → WatchScope

pub data ConnectionState : Type 0 where
  connecting connected : ConnectionState
  degraded : Bytes → ConnectionState

pub record LiveOutput : Type 0 where
  pub text : Bytes
  pub truncated : Bool

pub data WatchEffect : Type 0 where
  quit refresh_agents : WatchEffect
  resubscribe : Option Bytes → WatchEffect
  cycle_agents : Bool → WatchEffect
  copy : Bytes → WatchEffect

-- A signed number as its sign and its size.
pub record Delta : Type 0 where
  pub negative : Bool
  pub size : ℕ

pub data WatchInput : Type 0 where
  quit_key enter open_picker toggle_raw copy_key top bottom start_search : WatchInput
  search_backspace search_commit search_cancel : WatchInput
  move : Delta → WatchInput
  cycle : Bool → WatchInput
  search_char : ℕ → WatchInput

-- `ApiInvocationDetail`: its records, and the texts that a copy takes from it.
pub record Detail : Type 0 where
  pub invocation_id : ℕ
  pub records : List PresentationRecord
  pub tool_name : Bytes
  pub cmd : Option Bytes
  pub patch : Option Bytes
  pub chars : Option Bytes
  pub raw_evidence : Bytes

-- `HistoryLiveEvent`, with what its payload may hold.
pub record LiveEvent : Type 0 where
  pub sequence : ℕ
  pub event_type : Bytes
  pub agent_id : Option Bytes
  pub invocation_id : Option ℕ
  pub normalized_workdir : Option Bytes
  pub active_process_count : Option ℕ
  pub skipped_events : Option ℕ

pub record WatchApp : Type 0 where
  pub connection : ConnectionState
  pub agents : List ApiAgent
  pub scope : WatchScope
  pub picker_index : ℕ
  pub selected : ℕ
  pub scroll : ℕ
  pub search_input : Option Bytes
  pub search_query : Bytes
  pub status_active_process_count : ℕ
  pub new_workdir_notice : Option Bytes
  pub new_workdir_notice_expires_at : Option ℕ
  pub recovery_notice : Option Bytes
  pub recovery_notice_expires_at : Option ℕ
  pub cards : List WatchCard
  pub details : List (ℕ × Detail)
  pub live_output : List (ℕ × LiveOutput)
  pub expanded : List Bytes
  pub raw_open : List ℕ
  pub automatic_scope : Bool
  pub last_live_sequence : ℕ

unfoldable pub automatic_scope_for_agents : List ApiAgent → WatchScope
automatic_scope_for_agents [] = waiting
automatic_scope_for_agents (agent ∷ []) = agent_scope agent.id
automatic_scope_for_agents (agent ∷ other ∷ agents) = picker

abbrev pub is_picker : WatchScope → Bool
is_picker picker = true
is_picker _ = false

abbrev pub is_waiting : WatchScope → Bool
is_waiting waiting = true
is_waiting _ = false

abbrev pub same_scope : WatchScope → WatchScope → Bool
same_scope waiting waiting = true
same_scope picker picker = true
same_scope all_agents all_agents = true
same_scope unattributed unattributed = true
same_scope (agent_scope a) (agent_scope b) = eq_bytes a b
same_scope _ _ = false

abbrev pub scope_filter : WatchScope → Option Bytes
scope_filter (agent_scope id) = some id
scope_filter _ = none

unfoldable pub stream_filter : WatchApp → Option Bytes
stream_filter app = scope_filter app.scope

abbrev pub initial_scope : List ApiAgent → WatchOptions → WatchScope
initial_scope agents options = if options.all then all_agents else elim options.agent [
  | some agent ↦ agent_scope agent
  | none ↦ automatic_scope_for_agents agents
]

unfoldable pub new : List ApiAgent → ℕ → WatchOptions → WatchApp
new agents active_process_count options = record {
  connection = connecting;
  agents = agents;
  scope = initial_scope agents options;
  picker_index = if is_picker (initial_scope agents options) then 1 else 0;
  selected = 0;
  scroll = 0;
  search_input = none;
  search_query = [];
  status_active_process_count = active_process_count;
  new_workdir_notice = none;
  new_workdir_notice_expires_at = none;
  recovery_notice = none;
  recovery_notice_expires_at = none;
  cards = [];
  details = [];
  live_output = [];
  expanded = [];
  raw_open = [];
  automatic_scope = is_none options.agent && not options.all;
  last_live_sequence = 0;
}

abbrev pub reset_selection : WatchApp → WatchApp
reset_selection app = record app { selected = 0; scroll = 0 }

unfoldable pub default_picker_index : List ApiAgent → ℕ
default_picker_index [] = 0
default_picker_index (agent ∷ agents) = 1

unfoldable pub move_index : ℕ → ℕ → Delta → ℕ
move_index current len delta =
    if len == 0
    then 0
    else if delta.negative
    then current - delta.size
    else min (min (current + delta.size) (2 ^ 64 - 1)) (len - 1)

unfoldable pub position_from : ℕ → Bytes → List ApiAgent → Option ℕ
position_from index id [] = none
position_from index id (agent ∷ agents) =
    let later = position_from (suc index) id agents in
    if eq_bytes agent.id id then some index else later

abbrev pub position : Bytes → List ApiAgent → Option ℕ
position id agents = position_from 0 id agents

abbrev pub begins : Bytes → Bytes → Bool
begins text [] = true
begins [] (c ∷ prefix) = false
begins (d ∷ text) (c ∷ prefix) = (d == c) && begins text prefix

-- `str::contains`
abbrev pub contains_text : Bytes → Bytes → Bool
contains_text [] query = begins [] query
contains_text (c ∷ text) query = begins (c ∷ text) query || contains_text text query

abbrev pub filter_cards : (WatchCard → Bool) → List WatchCard → List WatchCard
filter_cards test [] = []
filter_cards test (card ∷ cards) =
    if test card then card ∷ filter_cards test cards else filter_cards test cards

abbrev pub remove_bytes : Bytes → List Bytes → List Bytes
remove_bytes key [] = []
remove_bytes key (k ∷ set) =
    if eq_bytes k key then remove_bytes key set else k ∷ remove_bytes key set

abbrev pub remove_id : ℕ → List ℕ → List ℕ
remove_id id [] = []
remove_id id (i ∷ set) = if i == id then remove_id id set else i ∷ remove_id id set

unfoldable pub card_in_scope : WatchScope → WatchCard → Bool
card_in_scope (agent_scope id) card = eq_option card.record_.agent_id (some id)
card_in_scope unattributed card = is_none card.record_.agent_id
card_in_scope all_agents card = true
card_in_scope waiting card = false
card_in_scope picker card = false

abbrev pub u16_mod : ℕ
u16_mod = 2 ^ 16
