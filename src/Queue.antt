-- ===== src/Queue.antt =====
-- The queue's client (src/doccontext/queue/rabbitmq.py).
pub mod RabbitMq
pub mod Connection
pub mod Publishing
