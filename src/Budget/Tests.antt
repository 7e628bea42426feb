-- ===== src/Budget/Tests.antt =====
-- Runs of the context budget, and instances of its theorems.
use m365_copilot2api_docker.Budget.Grouping.{build_atoms_partition, messages_of, IsWeighed}
use m365_copilot2api_docker.Base.{◌+◌, ◌≤◌, ◌≡◌, refl, String, true, List, [], ◌∷◌, ◌⊎◌, false}
use m365_copilot2api_docker.Messages.{Message, Call}
use m365_copilot2api_docker.Text.{is_word}
use m365_copilot2api_docker.Budget.{
  window, exceeded, sliding_window, build_atoms, frame_tokens, total_of, is_system, is_tool,
  split_while, estimate, heuristic_token_count, atom, group, shorten, choose, pin, fill,
  marked_tokens, all_tokens, chosen_messages, assemble, mark_anchor, all_chosen,
}
use m365_copilot2api_docker.Budget.Fit.{TooHeavy, window-Fits}
use m365_copilot2api_docker.Budget.Kept.{systems, system_kept}

abbrev says : String → String → Message
says role text = record {
  role = role;
  name = "";
  content = text;
  calls_given = false;
  tool_calls = [];
  tool_call_id = "";
}

abbrev content_text : Message → String
content_text m = m.content

abbrev call_text : Call → String
call_text c = c.arguments

abbrev talk : List Message
talk =
    says "system" "be"
    ∷ says "user" "task"
    ∷ says "assistant" "a long answer of much text"
    ∷ says "assistant" "ok"
    ∷ says "tool" "a long answer of much text"
    ∷ []

abbrev shorter : List Message
shorter =
    says "system" "be"
    ∷ says "user" "task"
    ∷ says "assistant" "ok"
    ∷ says "tool" "a long answer of much text"
    ∷ []

runs :
    (sliding_window content_text call_text talk 45 ≡ window shorter true)
    × (sliding_window content_text call_text talk 20 ≡ exceeded 31)
unfolding sliding_window is_system is_tool is_word split_while estimate heuristic_token_count
    total_of atom group build_atoms mark_anchor shorten choose pin fill marked_tokens all_tokens
    chosen_messages assemble all_chosen
runs = (refl, refl)

window-Fits_example :
    (total_of content_text call_text shorter + frame_tokens ≤ 45)
    ⊎ TooHeavy 45 (build_atoms content_text call_text talk)
window-Fits_example = window-Fits content_text call_text talk 45 shorter true runs.0

system_kept_example : systems shorter ≡ systems talk
system_kept_example = system_kept content_text call_text talk 45 shorter true runs.0

build_atoms_partition_example :
    (messages_of (build_atoms content_text call_text talk) ≡ talk)
    × IsWeighed content_text call_text (build_atoms content_text call_text talk)
build_atoms_partition_example = build_atoms_partition content_text call_text talk
