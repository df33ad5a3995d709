-- ===== src/Lib.antt =====
-- A model of the host-side logic of CWM, the Code World Model release: how its generator schedules
-- requests on one GPU cache, the datasets that feed training, and how patches are made, graded and
-- voted on.
--
-- The parts, and the files that model them:
-- - Fastgen: cwm/fastgen/generate.py, class FastGen. A request (Packet of cwm/fastgen/api.py) waits
--   in a queue, becomes a lane with blocks of the GPU cache, decodes `sync_freq` tokens at a time,
--   may be parked when blocks run out, and ends as an answer that is cut at a stop. Lane.antt has
--   the class Lane and its methods; State.antt the settings, the host state and `_kill_lane`;
--   Prepare.antt `_prepare_lanes`; Admit.antt `_add_lanes` with the queue as a list of events;
--   Trim.antt `_trim_packet`. Invariant.antt says which states are well formed: every block is
--   free or belongs to one active lane, and the tables agree with the lanes.
-- - Fastgen/BlockSet: the class ISet of cwm/fastgen/utils/iset.py as the scheduler sees it, a
--   record of operations and laws that the scheduler takes as a parameter. Bitmap.antt fills it
--   with lists of Booleans, to run the scheduler.
-- - Fastgen/ISet: the radix tree of cwm/fastgen/utils/iset.py. ISet.antt has the nodes Mem, Chk
--   and Bit with `_mk` and `_union`, Sets.antt `interval`, `_len`, `_take`, `_tolist` and the
--   methods of ISet. Bits.antt and Mask.antt are about masks of consecutive ones; Tree.antt says
--   which trees are built, by the number of places left; Union, Interval, Count, Take, Listing and
--   Order are about one operation each, Laws.antt about the methods. Blocks.antt fills BlockSet.
-- - Fastgen/HostCache: the class Cache of cwm/fastgen/utils/cache.py, a trie of the pages of prompts
--   with their buffers in host memory. HostCache.antt has `tick` and `prepare_lane`, Evict.antt
--   `maintain` with the order of its heap. The hash of a page is a parameter.
-- - Data: cwm/data. Data.antt has the abstract class Dataset of dataset.py (`__next__`,
--   `state_dict`, `load_state_dict`) and what a dataset promises: the items it yields, and that a
--   saved state resumes it. Sources, FilterMap, Mix and Chain are srcs/list.py, srcs/range.py,
--   ops/filter_map.py, ops/mix.py and ops/chain.py. TextLines.antt is the class OneFileLines of
--   cwm/text/data/srcs/text_file_lines.py, a dataset of the lines of a file.
-- - Swerl: cwm/rl/swerl. Grading.antt is eval_backend/utils/grading.py, how the outcome of a test
--   run becomes a verdict on a patch. Edit.antt is plugins/edit.py, the search and replace tool of
--   the agent: `find_all_occurrences`, and `main` from the parsed command and the file's text on.
--   Log.antt is utils/pytest_parser.py, and Evaluation.antt `get_logs_eval` and `get_eval_report` of
--   utils/grading.py, which read the log of a run and grade it. Tools.antt is default_tools.py and
--   tools.py: the tool calls in an answer, and what the tools do with the shell of the container.
-- - Rl: cwm/rl/envs. Transition.antt, Trajectory.antt and Rollout.antt are the classes Transition
--   and Trajectory and `reference_rollout` of api.py; the environment is a parameter.
--   SwerlTool.antt is envs/swerl_tool.py: Step.antt has `SWERLToolEnv.step`, and Episode.antt runs
--   it on a list of actions. Outcomes.antt is outcomes.py: pass@k, the rank score, and the number
--   of samples that a specification of metrics asks for. MathThink.antt is the class
--   MathThinkDialogEnv of envs/math_think_dialog.py.
-- - Dialog: Tokenizer.antt is cwm/text/tokenizers.py with the messages of cwm/text/datatypes.py;
--   Truncate.antt and Env.antt are cwm/rl/envs/utils/dialogs.py and the method `transition` of
--   cwm/rl/envs/dialog.py.
-- - Evals: Majority.antt is the vote of evals/scripts/swerl/tts_majority_voting.py on one instance,
--   from its results to the selected patch; the dicts are those of Prelude/Dict.antt.
--
-- A method that changes its object is a function from the state to the state. A failed assertion
-- is `fault`. A `while` loop runs on fuel and ends in `spin` without it: the loop of
-- `_prepare_lanes` is given more rounds than twice the number of active lanes, the binary search of
-- `_trim_packet` one more than the length of the answer, and the theorems show that these are
-- enough; so are the rounds of `find_all_occurrences`, two more than the characters of the text
-- (the end of a file's edit without them is `out_of_rounds`). The loop of `_add_lanes` takes a row
-- in each round, so it runs on the free rows; a queue is a finite list of what arrives, and waiting
-- for ever on it is `spin` too. The loop of FilterMap and that of Mix skip items without end if the
-- dataset below does so; their fuel stands in the statements. A number n is printed in n + 1 rounds,
-- of which its digits need fewer, and a long text is encoded in as many pieces as it has. An
-- episode of an environment runs on a list of actions; an exception is `raised` or `none`.
--
-- In Fastgen/ISet a union is given two rounds for each of the 32 levels and one more, an interval one
-- for each level and two more, and the loop over `ones` one for each level and one more. The source
-- compares nodes by `is`, which the model reads as: both are the same Mem. In Fastgen/HostCache the
-- pages of a prompt are taken off in one round more than it has tokens, for pages of at least one.
--
-- Numbers are natural, as the source keeps its lengths and indices at least 0; a subtraction that
-- the source guards with max(0, ...) is the natural one. A temperature is a number of thousandths.
-- The floats of grading and of outcomes are kept as fractions.
-- A tensor with a row for each lane is a function of the row. Texts are lists of character codes.
-- The encoder of tiktoken, the matches of regular expressions, the container with its shell and
-- the test run of a patch are parameters.
--
-- Not modelled: the CUDA graphs, kernels, sampling and profiling of cwm/fastgen, the agreement
-- check between ranks, the copies between host and device, and in the rest of the repository the tensor code, the
-- sandboxes, servers and command lines, which call third-party code for the most part.
pub mod Prelude
pub mod Data
pub mod Fastgen
pub mod Swerl
pub mod Dialog
pub mod Evals
pub mod Rl
