-- ===== src/BomBackfill/Messages.antt =====
-- services/api/app/sync/sync_job_message_templates.py: the messages of the queue.
use auto_scheduling_system.Prelude.{ℕ, ◌++◌, Text, codes, show_nat, List, [], ◌∷◌, join}

-- The parts of an f-string.
unfoldable pub concat : List Text → Text
unfolding join
concat = join []

unfoldable pub auto_bom_enqueue_empty_message : Text → Text → Text
auto_bom_enqueue_empty_message source reason =
    concat (source ∷ codes ":" ∷ reason ∷ codes " 未发现需要自动补 BOM 的候选物料。" ∷ [])

unfoldable pub auto_bom_enqueue_summary_message : ℕ → ℕ → ℕ → ℕ → ℕ → Text
auto_bom_enqueue_summary_message orders items enqueued reactivated tracked = concat (
    codes "自动补齐 BOM 入队完成：候选订单 "
    ∷ show_nat orders
    ∷ codes " 条；候选物料 "
    ∷ show_nat items
    ∷ codes " 个；入队 "
    ∷ show_nat enqueued
    ∷ codes " 个；重激活 "
    ∷ show_nat reactivated
    ∷ codes " 个；已跟踪 "
    ∷ show_nat tracked
    ∷ codes " 个。"
    ∷ [])

unfoldable pub queue_consume_running_message : Text → Text → ℕ → Text
queue_consume_running_message source reason running_job_id = concat (
    source
    ∷ codes ":"
    ∷ reason
    ∷ codes " 跳过 BOM 补数队列消费：同步任务 "
    ∷ show_nat running_job_id
    ∷ codes " 正在运行。"
    ∷ [])

unfoldable pub queue_consume_empty_message : Text → Text → Text
queue_consume_empty_message source reason =
    concat (source ∷ codes ":" ∷ reason ∷ codes " 当前没有待消费的 BOM 补数队列项。" ∷ [])

unfoldable pub queue_consume_started_message : ℕ → ℕ → Text
queue_consume_started_message claimed batch_size = concat (
    codes "BOM 补数队列开始消费：认领 "
    ∷ show_nat claimed
    ∷ codes " 个；批大小 "
    ∷ show_nat batch_size
    ∷ codes "。"
    ∷ [])

-- What the progress and the result have in common.
unfoldable pub counts_text : ℕ → ℕ → ℕ → ℕ → ℕ → List Text
counts_text claimed processed success retry_wait failed =
    codes "认领 "
    ∷ show_nat claimed
    ∷ codes " 个；本轮处理 "
    ∷ show_nat processed
    ∷ codes " 个；成功 "
    ∷ show_nat success
    ∷ codes " 个；待重试 "
    ∷ show_nat retry_wait
    ∷ codes " 个；永久失败 "
    ∷ show_nat failed
    ∷ []

unfoldable pub queue_consume_progress_message : ℕ → ℕ → List Text → Text
queue_consume_progress_message current total counts = concat (
    codes "BOM 补数队列进行中：批次 "
    ∷ show_nat current
    ∷ codes "/"
    ∷ show_nat total
    ∷ codes "；"
    ∷ (counts ++ codes " 个。" ∷ []))

unfoldable pub queue_consume_completed_message : List Text → ℕ → ℕ → Text
queue_consume_completed_message counts success_rows fail_rows = concat (
    codes "BOM 补数队列完成："
    ∷ (counts
        ++ (codes " 个；BOM 行写入成功 "
            ∷ show_nat success_rows
            ∷ codes " 条；失败 "
            ∷ show_nat fail_rows
            ∷ codes " 条。"
            ∷ [])))

unfoldable pub queue_consume_failed_message : Text → Text
queue_consume_failed_message error = concat (codes "BOM 补数队列消费失败：" ∷ error ∷ [])
